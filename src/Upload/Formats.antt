-- ===== src/Upload/Formats.antt =====
-- include/gles_util_stub.h: the sizes of pixels, indices and attributes. The numbers are the values that the
-- Khronos headers give to the names beside them.
use webos_bridge_64to.Common.{ℕ, ◌*◌, ◌||◌, Option, none, some, ◌==◌, if◌then◌else◌}

abbrev gl_byte : ℕ
gl_byte = 0x1400

abbrev pub gl_unsigned_byte : ℕ
gl_unsigned_byte = 0x1401

abbrev gl_short : ℕ
gl_short = 0x1402

abbrev pub gl_unsigned_short : ℕ
gl_unsigned_short = 0x1403

abbrev gl_int : ℕ
gl_int = 0x1404

abbrev pub gl_unsigned_int : ℕ
gl_unsigned_int = 0x1405

abbrev gl_float : ℕ
gl_float = 0x1406

abbrev gl_half_float : ℕ
gl_half_float = 0x140b

-- The first switch: a packed type holds a whole pixel.
unfoldable pub packed_size : ℕ → Option ℕ
packed_size type =
    if type == 0x8363 || (type == 0x8033 || type == 0x8034)
    then some 2  -- 5_6_5, 4_4_4_4, 5_5_5_1
    else if type == 0x8368 || (type == 0x8c3b || type == 0x8c3e)
    then some 4  -- 2_10_10_10, 10F_11F_11F, 5_9_9_9
    else if type == 0x84fa
    then some 4  -- UNSIGNED_INT_24_8
    else if type == 0x8dad
    then some 8  -- FLOAT_32_UNSIGNED_INT_24_8
    else none

-- The switch on the format.
unfoldable pub components : ℕ → Option ℕ
components format =
    if format == 0x1903
      || (format == 0x8d94 || (format == 0x1906 || (format == 0x1909 || format == 0x1902)))
    then some 1  -- RED, RED_INTEGER, ALPHA, LUMINANCE, DEPTH_COMPONENT
    else if format == 0x8227 || (format == 0x8228 || format == 0x190a)
    then some 2  -- RG, RG_INTEGER, LUMINANCE_ALPHA
    else if format == 0x1907 || format == 0x8d98
    then some 3  -- RGB, RGB_INTEGER
    else if format == 0x1908 || format == 0x8d99
    then some 4  -- RGBA, RGBA_INTEGER
    else if format == 0x84f9
    then some 2  -- DEPTH_STENCIL
    else none

unfoldable pub bytes_per_component : ℕ → Option ℕ
bytes_per_component type =
    if type == gl_unsigned_byte || type == gl_byte
    then some 1
    else if type == gl_unsigned_short || (type == gl_short || type == gl_half_float)
    then some 2
    else if type == gl_unsigned_int || (type == gl_int || type == gl_float)
    then some 4
    else none

unfoldable pub gl_bytes_per_pixel : ℕ → ℕ → ℕ
gl_bytes_per_pixel format type = elim (packed_size type) [
  | some n ↦ n
  | none ↦ elim (components format) [
    | none ↦ 4
    | some comps ↦ elim (bytes_per_component type) [ none ↦ 4 | some bpc ↦ comps * bpc ]
  ]
]

unfoldable pub index_type_size : ℕ → ℕ
index_type_size type =
    if type == gl_unsigned_byte
    then 1
    else if type == gl_unsigned_short
    then 2
    else if type == gl_unsigned_int
    then 4
    else 0

unfoldable pub attrib_type_size : ℕ → ℕ
attrib_type_size type =
    if type == gl_byte || type == gl_unsigned_byte
    then 1
    else if type == gl_short || (type == gl_unsigned_short || type == gl_half_float)
    then 2
    else 4
