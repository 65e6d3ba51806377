-- ===== src/Upload/Examples.antt =====
-- Tests of the sizes, and the theorems at concrete inputs.
use webos_bridge_64to.Common.{ℕ, zero, suc, true, ◌+◌, ◌≤◌, ◌<◌, ◌≡◌, ◌⊎◌, some, refl, arith}
use webos_bridge_64to.Upload.Formats.{
  packed_size, components, bytes_per_component, gl_bytes_per_pixel, gl_unsigned_short,
}
use webos_bridge_64to.Upload.Images.{
  Unpack, gl_align_up_size, gl_unpack_alignment, row_pixels, image_rows, row_stride,
  gl_unpack_image_size_2d, gl_unpack_image_size_3d,
}
use webos_bridge_64to.Upload.Indices.{
  bias, restart_index, index_at, widen, scan, clip, mapped_index_bounds,
}
use webos_bridge_64to.Upload.Layout.{bytes_of_image, bytes_of_row, image_3d_covers, place_of_pixel}
use webos_bridge_64to.Upload.Bounds.{bounds_cover_draw}
use webos_bridge_64to.Upload.Tight.{IsUsed, bounds_are_drawn}

code : Unit {0}
unfolding packed_size components bytes_per_component gl_bytes_per_pixel gl_align_up_size
    gl_unpack_alignment row_pixels image_rows row_stride gl_unpack_image_size_2d
    gl_unpack_image_size_3d bytes_of_image bytes_of_row place_of_pixel restart_index index_at widen
    scan clip mapped_index_bounds
code = tt

abbrev plain : Unpack
plain = record {
  alignment = 4;
  row_length = 0;
  image_height = 0;
  skip_pixels = 1;
  skip_rows = 2;
  skip_images = 0;
}

-- RGB bytes: 3 pixels of 3 bytes in rows of 12.
rgb_size : gl_unpack_image_size_2d plain 3 2 0x1907 0x1401 ≡ 48
unfolding code
rgb_size = refl

-- A part of 3 times 2 times 2 of images of 5 by 4 pixels, after 1 image, 2 rows and 1 pixel.
abbrev part : Unpack
part = record {
  alignment = 8;
  row_length = 5;
  image_height = 4;
  skip_pixels = 1;
  skip_rows = 2;
  skip_images = 1;
}

image_3d_covers_example :
    ((x y z : ℕ)
      → x < 3
      → y < 2
      → z < 2
      → place_of_pixel part 3 2 3 x y z + 3 ≤ gl_unpack_image_size_3d part 3 2 2 0x1907 0x1401)
    × (gl_unpack_image_size_3d part 3 2 2 0x1907 0x1401 ≡ 188)
    × (part.skip_images ≡ 0
        → ◌≡◌ {A = ℕ} 2 1
        → gl_unpack_image_size_3d part 3 2 2 0x1907 0x1401
          ≡ gl_unpack_image_size_2d part 3 2 0x1907 0x1401)
unfolding code
image_3d_covers_example =
    image_3d_covers part 3 2 2 0x1907 0x1401 (omega arith) (omega arith) (omega arith) (omega arith)
      (omega arith) (omega arith)

-- The short indices 5, 0xffff and 3.
abbrev strip : ℕ → ℕ
strip i = elim i [
  | zero ↦ 5
  | suc one ↦ elim one [
    | zero ↦ 0
    | suc two ↦ elim two [
      | zero ↦ 255
      | suc three ↦ elim three [ zero ↦ 255 | suc four ↦ elim four [ zero ↦ 3 | suc more ↦ 0 ] ]
    ]
  ]
]

strip_range : mapped_index_bounds (some strip) 3 gl_unsigned_short bias true ≡ some (3, 5)
unfolding code
strip_range = refl

bounds_cover_draw_example : (5 + bias ≤ 5 + bias) × (bias ≤ 5 + bias → 3 + bias ≤ 5 + bias)
unfolding code
bounds_cover_draw_example =
    bounds_cover_draw strip 3 gl_unsigned_short bias true 3 5 0 5 strip_range (omega arith)
      (record { read = refl; vertex = refl })

bounds_are_drawn_example :
    IsUsed strip 3 gl_unsigned_short bias true (5 + bias)
    × ((◌≡◌ {A = ℕ} 3 0) ⊎ IsUsed strip 3 gl_unsigned_short bias true (3 + bias))
bounds_are_drawn_example = bounds_are_drawn strip 3 gl_unsigned_short bias true 3 5 strip_range
