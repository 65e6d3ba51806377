-- ===== src/Upload/Layout.antt =====
-- The layout of an image in the memory of the program as OpenGL ES describes it for the pixel store
-- parameters, and the sizes of include/gles_util_stub.h against it.
use webos_bridge_64to.Common.{
  ℕ, zero, suc, ◌+◌, ◌-◌, ◌*◌, ◌/◌, ◌^◌, ◌≤◌, ◌<◌, ◌≡◌, arith, ap, sym, ◌∙◌,
}
use native.Mathlib.Decide.{dec_lt}
use webos_bridge_64to.Upload.Formats.{gl_bytes_per_pixel}
use webos_bridge_64to.Upload.Images.{
  wrap, Unpack, gl_align_up_size, gl_unpack_alignment, image_rows, row_pixels, row_stride,
  gl_unpack_image_size_2d, gl_unpack_image_size_3d,
}
use webos_bridge_64to.Upload.Cover.{aligned, image_3d_strides, last_pixel}

-- A parameter that is 0 stands for what is given without it.
abbrev pub or_else : ℕ → ℕ → ℕ
or_else parameter given = elim parameter [ zero ↦ given | suc n ↦ suc n ]

-- From the start of a row to the start of the next one: GL_UNPACK_ROW_LENGTH pixels, if it is set, and else the
-- width, up to the next multiple of GL_UNPACK_ALIGNMENT, which is 4 at first.
unfoldable pub bytes_of_row : Unpack → ℕ → ℕ → ℕ
bytes_of_row u width bpp =
    let alignment = or_else u.alignment 4 in
    (or_else u.row_length width * bpp + alignment - 1) / alignment * alignment

-- From the start of an image to the start of the next one: GL_UNPACK_IMAGE_HEIGHT rows, if it is set, and else the
-- height.
unfoldable pub bytes_of_image : Unpack → ℕ → ℕ → ℕ → ℕ
bytes_of_image u width height bpp = bytes_of_row u width bpp * or_else u.image_height height

-- Where the pixel (x, y, z) of the part that is read begins, after the images, rows and pixels that are skipped.
unfoldable pub place_of_pixel : Unpack → (width height bpp x y z : ℕ) → ℕ
place_of_pixel u width height bpp x y z =
    (u.skip_images + z) * bytes_of_image u width height bpp
    + (u.skip_rows + y) * bytes_of_row u width bpp
    + (u.skip_pixels + x) * bpp

alignment_lem : (u : Unpack) → gl_unpack_alignment u ≡ or_else u.alignment 4
unfolding gl_unpack_alignment
alignment_lem u = ground arith

row_pixels_lem : (u : Unpack) (width : ℕ) → row_pixels u width ≡ or_else u.row_length width
unfolding row_pixels
row_pixels_lem u width = ground arith

image_rows_lem : (u : Unpack) (height : ℕ) → image_rows u height ≡ or_else u.image_height height
unfolding image_rows
image_rows_lem u height = ground arith

align_up_exact :
    (value alignment : ℕ)
    → 1 ≤ alignment
    → value + alignment < 2 ^ 64
    → gl_align_up_size value alignment ≡ (value + alignment - 1) / alignment * alignment
unfolding gl_align_up_size
align_up_exact value alignment pos fits =
    let sum : wrap (value + alignment + 2 ^ 64 - 1) ≡ value + alignment - 1 =
      omega (arith, fits, pos) in
    let facts = aligned value alignment pos in
    elim (dec_lt 1 alignment) [
      | yes big ↦ ground (arith, facts.1, ap (λ (t : ℕ). t / alignment * alignment) sum)
      | no one ↦ let is_one : alignment ≡ 1 = omega arith in rw is_one (ground arith)
    ]

-- Where the row and its alignment fit `size_t`, the code's rows are those of the description.
stride_lem :
    (u : Unpack) (width bpp : ℕ)
    → or_else u.row_length width * bpp + or_else u.alignment 4 < 2 ^ 64
    → row_stride u width bpp ≡ bytes_of_row u width bpp
unfolding row_stride bytes_of_row
stride_lem u width bpp fits =
    let pos : 1 ≤ or_else u.alignment 4 = ground arith in
    let whole : wrap (or_else u.row_length width * bpp) ≡ or_else u.row_length width * bpp =
      omega (arith, fits) in
    rw (row_pixels_lem u width, alignment_lem u, whole)
      (align_up_exact (or_else u.row_length width * bpp) (or_else u.alignment 4) pos fits)

image_lem :
    (u : Unpack) (w h bpp : ℕ)
    → row_stride u w bpp ≡ bytes_of_row u w bpp
    → row_stride u w bpp * image_rows u h ≡ bytes_of_image u w h bpp
unfolding bytes_of_image
image_lem u w h bpp row = λ k. row k * image_rows_lem u h k

split : (a b c : ℕ) → (a + b) * c ≡ a * c + b * c
split a b c = grind arith

place_lem :
    (u : Unpack) (w h bpp x y z : ℕ)
    → place_of_pixel u w h bpp x y z
      ≡ u.skip_images * bytes_of_image u w h bpp
        + u.skip_rows * bytes_of_row u w bpp
        + u.skip_pixels * bpp
        + z * bytes_of_image u w h bpp
        + y * bytes_of_row u w bpp
        + x * bpp
unfolding place_of_pixel
place_lem u w h bpp x y z = omega (
  arith,
  split u.skip_images z (bytes_of_image u w h bpp),
  split u.skip_rows y (bytes_of_row u w bpp),
  split u.skip_pixels x bpp,
)

-- The same place at the rows and images of the code.
place_in_strides :
    (u : Unpack) (w h bpp x y z : ℕ)
    → row_stride u w bpp ≡ bytes_of_row u w bpp
    → let stride = row_stride u w bpp in
      let image = stride * image_rows u h in
      let start = u.skip_images * image + u.skip_rows * stride + u.skip_pixels * bpp in
      place_of_pixel u w h bpp x y z ≡ start + z * image + y * stride + x * bpp
place_in_strides u w h bpp x y z row =
    let image = image_lem u w h bpp row in
    place_lem u w h bpp x y z ∙ (λ k.
      u.skip_images * sym image k
      + u.skip_rows * sym row k
      + u.skip_pixels * bpp
      + z * sym image k
      + y * sym row k
      + x * bpp)

-- Unless `size_t` overflows, the bytes from the start of the program's memory that `gl_unpack_image_size_3d` counts
-- hold each pixel of the part that GL reads, laid out as OpenGL ES describes it for the row length, image height,
-- alignment and skips in force, and end with the last one; for one image and none skipped it is
-- `gl_unpack_image_size_2d`.
pub image_3d_covers :
    (u : Unpack) (w h d format type : ℕ)
    → 0 < w
    → 0 < h
    → 0 < d
    → let bpp = gl_bytes_per_pixel format type in
      let size = gl_unpack_image_size_3d u w h d format type in
      or_else u.row_length w * bpp + or_else u.alignment 4 < 2 ^ 64
      → bytes_of_image u w h bpp < 2 ^ 64
      → place_of_pixel u w h bpp (w - 1) (h - 1) (d - 1) + bpp < 2 ^ 64
      → ((x y z : ℕ) → x < w → y < h → z < d → place_of_pixel u w h bpp x y z + bpp ≤ size)
        × (size ≡ place_of_pixel u w h bpp (w - 1) (h - 1) (d - 1) + bpp)
        × (u.skip_images ≡ 0 → d ≡ 1 → size ≡ gl_unpack_image_size_2d u w h format type)
image_3d_covers u w h d format type wpos hpos dpos row_fits image_fits fits =
    let bpp : ℕ = gl_bytes_per_pixel format type in
    let row : row_stride u w bpp ≡ bytes_of_row u w bpp = stride_lem u w bpp row_fits in
    let image = image_lem u w h bpp row in
    let last = place_in_strides u w h bpp (w - 1) (h - 1) (d - 1) row in
    let (inside, ends, flat) =
      image_3d_strides u w h d format type wpos hpos dpos (omega (arith, image, image_fits))
        (omega (arith, last, fits, last_pixel w bpp wpos)) in
    (
      λ x y z xlt ylt zlt. rw (place_in_strides u w h bpp x y z row) (inside x y z xlt ylt zlt),
      omega (arith, ends, last, last_pixel w bpp wpos),
      flat,
    )
