-- ===== src/Upload/Indices.antt =====
-- include/gles_util_stub.h: `mapped_index_bounds`, the range of vertices that an indexed draw uses. A vertex
-- and `basevertex` are counted from -2 ^ 31 on, so that they are never negative here: `base` is
-- `basevertex + 2 ^ 31`. The 64-bit `GLintptr` never overflows. `count` is 0 for a negative one.
use webos_bridge_64to.Common.{
  ℕ, zero, suc, ◌+◌, ◌-◌, ◌*◌, ◌^◌, Bool, ◌&&◌, Option, none, some, ltb, ◌==◌, if◌then◌else◌,
}
use webos_bridge_64to.Upload.Formats.{gl_unsigned_byte, gl_unsigned_short, gl_unsigned_int}

abbrev pub bias : ℕ
bias = 2 ^ 31

unfoldable pub restart_index : ℕ → ℕ
restart_index type =
    if type == gl_unsigned_byte
    then 0xff
    else if type == gl_unsigned_short
    then 0xffff
    else 0xffffffff

-- The index `i` in memory, lowest byte first; `none` for a type that is no index type.
unfoldable pub index_at : ℕ → (ℕ → ℕ) → ℕ → Option ℕ
index_at type idx i =
    if type == gl_unsigned_byte
    then some (idx i)
    else if type == gl_unsigned_short
    then some (idx (2 * i) + 256 * idx (2 * i + 1))
    else if type == gl_unsigned_int
    then some
        (idx (4 * i) + 256 * idx (4 * i + 1) + 65536 * idx (4 * i + 2) + 16777216 * idx (4 * i + 3))
    else none

-- `min_v` and `max_v`, once there is an index.
abbrev pub Range : Type 0
Range = Option (ℕ × ℕ)

unfoldable pub widen : ℕ → Range → Range
widen vertex none = some (vertex, vertex)
widen vertex (some (lo, hi)) =
    some (if ltb vertex lo then vertex else lo, if ltb hi vertex then vertex else hi)

-- The loop from index `i` on; the outer `none` is `return false` on a bad type.
unfoldable pub scan : (n i type base : ℕ) → Bool → (ℕ → ℕ) → Range → Option Range
scan zero i type base restart idx r = some r
scan (suc n) i type base restart idx r = elim (index_at type idx i) [
  | none ↦ none
  | some raw ↦
      let skipped = scan n (i + 1) type base restart idx r in
      let counted = scan n (i + 1) type base restart idx (widen (raw + base) r) in
      if restart && raw == restart_index type then skipped else counted
]

-- The end: vertices below 0 do not exist.
unfoldable pub clip : Range → Range
clip none = none
clip (some (lo, hi)) =
    if ltb hi bias then none else some (if ltb lo bias then 0 else lo - bias, hi - bias)

-- `none` is `return false`; `idx` is `none` for a NULL pointer.
unfoldable pub mapped_index_bounds : Option (ℕ → ℕ) → (count type base : ℕ) → Bool → Range
mapped_index_bounds none count type base restart = none
mapped_index_bounds (some idx) count type base restart =
    if count == 0
    then none
    else elim (scan count 0 type base restart idx none) [ none ↦ none | some r ↦ clip r ]
