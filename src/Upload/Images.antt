-- ===== src/Upload/Images.antt =====
-- include/gles_util_stub.h: the extent of an image under the pixel store state. `size_t` has 64 bits and
-- wraps. `GLsizei` and `GLint` have 32 bits with a sign; one that is not positive is 0 here, which the tests
-- `<= 0` and `> 0` of the source do not tell apart. A negative skip count, which GL refuses, is outside the
-- model.
use webos_bridge_64to.Common.{ℕ, ◌+◌, ◌-◌, ◌*◌, ◌/◌, ◌%◌, ◌^◌, ◌||◌, leb, ltb, ◌==◌, if◌then◌else◌}
use webos_bridge_64to.Upload.Formats.{gl_bytes_per_pixel}

abbrev pub wrap : ℕ → ℕ
wrap n = n % 2 ^ 64

-- The fields of `stub_gl_state` that unpacking reads.
pub record Unpack : Type 0 where
  pub alignment : ℕ
  pub row_length : ℕ
  pub image_height : ℕ
  pub skip_pixels : ℕ
  pub skip_rows : ℕ
  pub skip_images : ℕ

unfoldable pub gl_align_up_size : ℕ → ℕ → ℕ
gl_align_up_size value alignment =
    if leb alignment 1
    then value
    else wrap (wrap (value + alignment + 2 ^ 64 - 1) / alignment * alignment)

unfoldable pub gl_unpack_alignment : Unpack → ℕ
gl_unpack_alignment u = if ltb 0 u.alignment then u.alignment else 4

unfoldable pub row_pixels : Unpack → ℕ → ℕ
row_pixels u width = if ltb 0 u.row_length then u.row_length else width

unfoldable pub image_rows : Unpack → ℕ → ℕ
image_rows u height = if ltb 0 u.image_height then u.image_height else height

unfoldable pub row_stride : Unpack → ℕ → ℕ → ℕ
row_stride u width bpp = gl_align_up_size (wrap (row_pixels u width * bpp)) (gl_unpack_alignment u)

unfoldable pub gl_unpack_image_size_2d : Unpack → (width height format type : ℕ) → ℕ
gl_unpack_image_size_2d u width height format type =
    if width == 0 || height == 0
    then 0
    else (let bpp = gl_bytes_per_pixel format type in
        let stride = row_stride u width bpp in
        let start = wrap (u.skip_rows * stride + u.skip_pixels * bpp) in
        wrap (start + (height - 1) * stride + width * bpp))

unfoldable pub gl_unpack_image_size_3d : Unpack → (width height depth format type : ℕ) → ℕ
gl_unpack_image_size_3d u width height depth format type =
    if width == 0 || (height == 0 || depth == 0)
    then 0
    else (let bpp = gl_bytes_per_pixel format type in
        let stride = row_stride u width bpp in
        let image_stride = wrap (stride * image_rows u height) in
        let start =
          wrap (u.skip_images * image_stride + u.skip_rows * stride + u.skip_pixels * bpp) in
        wrap (start + (depth - 1) * image_stride + (height - 1) * stride + width * bpp))
