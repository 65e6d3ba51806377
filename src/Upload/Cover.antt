-- ===== src/Upload/Cover.antt =====
-- The sizes of include/gles_util_stub.h, and the pixels that GL reads.
use webos_bridge_64to.Common.{
  ℕ, zero, suc, ◌+◌, ◌-◌, ◌*◌, ◌/◌, ◌%◌, ◌^◌, ◌≤◌, ◌<◌, ◌≡◌, ◌||◌, ◌==◌, arith, ap, false,
}
use native.Mathlib.Decide.{dec_lt}
use native.Mathlib.Nat.{mul-mod_left, div-add-mod', mod-lt}
use webos_bridge_64to.Upload.Formats.{gl_bytes_per_pixel}
use webos_bridge_64to.Upload.Images.{
  wrap, Unpack, gl_align_up_size, image_rows, row_stride, gl_unpack_image_size_2d,
  gl_unpack_image_size_3d,
}

pub aligned :
    (value alignment : ℕ)
    → 1 ≤ alignment
    → let r = (value + alignment - 1) / alignment * alignment in
      (value ≤ r) × (r < value + alignment) × (r % alignment ≡ 0)
aligned value alignment pos =
    let t = value + alignment - 1 in
    let split = div-add-mod' t alignment in
    let low = mod-lt t pos in
    (omega (arith, split, low), omega (arith, split, low), mul-mod_left (t / alignment) alignment)

-- `gl_align_up_size` is the least multiple of the alignment that is not below the value, when the sum of both
-- fits `size_t`.
pub align_up_lem :
    (value alignment : ℕ)
    → 1 ≤ alignment
    → value + alignment < 2 ^ 64
    → let r = gl_align_up_size value alignment in
      (value ≤ r) × (r < value + alignment) × (r % alignment ≡ 0)
unfolding gl_align_up_size
align_up_lem value alignment pos fits =
    let facts = aligned value alignment pos in
    let sum : wrap (value + alignment + 2 ^ 64 - 1) ≡ value + alignment - 1 =
      omega (arith, fits, pos) in
    elim (dec_lt 1 alignment) [
      | yes big ↦
          let same : gl_align_up_size value alignment
              ≡ (value + alignment - 1) / alignment * alignment =
            ground (arith, facts.1, ap (λ (t : ℕ). t / alignment * alignment) sum) in
          rw same facts
      | no one ↦
          let same : gl_align_up_size value alignment ≡ value = ground (arith, one) in
          rw same (omega arith, omega arith, omega (arith, one))
    ]

below : (x w b : ℕ) → x < w → x * b + b ≤ w * b
below x zero b h = absurd (omega arith)
below x (suc w) b h = grind arith

up_to : (y h s : ℕ) → y < h → y * s ≤ (h - 1) * s
up_to y h s lt = grind arith

pub last_pixel : (w b : ℕ) → 0 < w → w * b ≡ (w - 1) * b + b
last_pixel zero b h = absurd (omega arith)
last_pixel (suc w) b h = grind arith

size_2d :
    (u : Unpack) (w h format type : ℕ)
    → 0 < w
    → 0 < h
    → let bpp = gl_bytes_per_pixel format type in
      let stride = row_stride u w bpp in
      let start = u.skip_rows * stride + u.skip_pixels * bpp in
      start + (h - 1) * stride + w * bpp < 2 ^ 64
      → gl_unpack_image_size_2d u w h format type ≡ start + (h - 1) * stride + w * bpp
unfolding gl_unpack_image_size_2d
size_2d u w h format type wpos hpos fits =
    let nonzero : (w == 0 || h == 0) ≡ false = ground arith in rw nonzero (omega (arith, fits))

-- Unless `size_t` overflows, the bytes from the start of the program's memory that
-- `gl_unpack_image_size_2d` counts include each pixel (x, y) that GL reads at the row stride, and end with
-- the last one.
image_2d_covers :
    (u : Unpack) (w h format type : ℕ)
    → 0 < w
    → 0 < h
    → let bpp = gl_bytes_per_pixel format type in
      let stride = row_stride u w bpp in
      let start = u.skip_rows * stride + u.skip_pixels * bpp in
      let size = gl_unpack_image_size_2d u w h format type in
      start + (h - 1) * stride + w * bpp < 2 ^ 64
      → ((x y : ℕ) → x < w → y < h → start + y * stride + x * bpp + bpp ≤ size)
        × (size ≡ start + (h - 1) * stride + (w - 1) * bpp + bpp)
image_2d_covers u w h format type wpos hpos fits =
    let bpp = gl_bytes_per_pixel format type in
    let stride = row_stride u w bpp in
    let start = u.skip_rows * stride + u.skip_pixels * bpp in
    let size = size_2d u w h format type wpos hpos fits in
    (
      λ x y xlt ylt. omega (arith, size, below x w bpp xlt, up_to y h stride ylt),
      omega (arith, size, below (w - 1) w bpp (omega arith), last_pixel w bpp wpos),
    )

size_3d :
    (u : Unpack) (w h d format type : ℕ)
    → 0 < w
    → 0 < h
    → 0 < d
    → let bpp = gl_bytes_per_pixel format type in
      let stride = row_stride u w bpp in
      let image = stride * image_rows u h in
      let start = u.skip_images * image + u.skip_rows * stride + u.skip_pixels * bpp in
      image < 2 ^ 64
      → start + (d - 1) * image + (h - 1) * stride + w * bpp < 2 ^ 64
      → gl_unpack_image_size_3d u w h d format type
        ≡ start + (d - 1) * image + (h - 1) * stride + w * bpp
unfolding gl_unpack_image_size_3d
size_3d u w h d format type wpos hpos dpos image_fits fits =
    let image = row_stride u w (gl_bytes_per_pixel format type) * image_rows u h in
    let same : wrap image ≡ image = omega (arith, image_fits) in
    let nonzero : (w == 0 || (h == 0 || d == 0)) ≡ false = ground arith in
    rw (nonzero, same) (omega (arith, fits))

-- Unless `size_t` overflows, the same holds of `gl_unpack_image_size_3d` for each voxel (x, y, z), with the
-- images one image stride apart; for one image and none skipped it is `gl_unpack_image_size_2d`.
pub image_3d_strides :
    (u : Unpack) (w h d format type : ℕ)
    → 0 < w
    → 0 < h
    → 0 < d
    → let bpp = gl_bytes_per_pixel format type in
      let stride = row_stride u w bpp in
      let image = stride * image_rows u h in
      let start = u.skip_images * image + u.skip_rows * stride + u.skip_pixels * bpp in
      let size = gl_unpack_image_size_3d u w h d format type in
      image < 2 ^ 64
      → start + (d - 1) * image + (h - 1) * stride + w * bpp < 2 ^ 64
      → ((x y z : ℕ)
          → x < w
          → y < h
          → z < d
          → start + z * image + y * stride + x * bpp + bpp ≤ size)
        × (size ≡ start + (d - 1) * image + (h - 1) * stride + (w - 1) * bpp + bpp)
        × (u.skip_images ≡ 0 → d ≡ 1 → size ≡ gl_unpack_image_size_2d u w h format type)
image_3d_strides u w h d format type wpos hpos dpos image_fits fits =
    let bpp = gl_bytes_per_pixel format type in
    let stride = row_stride u w bpp in
    let image = stride * image_rows u h in
    let start = u.skip_images * image + u.skip_rows * stride + u.skip_pixels * bpp in
    let size = size_3d u w h d format type wpos hpos dpos image_fits fits in
    (
      λ x y z xlt ylt zlt.
          omega (arith, size, below x w bpp xlt, up_to y h stride ylt, up_to z d image zlt),
      omega (arith, size, last_pixel w bpp wpos),
      λ none one.
          let skipped : u.skip_images * image ≡ 0 * image = ap (λ (t : ℕ). t * image) none in
          let further : (d - 1) * image ≡ 0 * image = ap (λ (t : ℕ). (t - 1) * image) one in
          omega (
            arith,
            size,
            skipped,
            further,
            size_2d u w h format type wpos hpos (omega (arith, fits, skipped, further)),
          ),
    )
