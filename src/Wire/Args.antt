-- ===== src/Wire/Args.antt =====
-- include/gles_bridge_protocol.h: `ArgWriter`, `ArgReader`, and the functions aw_* and ar_*. A `memcpy` of
-- an integer moves its bytes, the lowest first. A value is its bit pattern, so i32 and f32 are u32 here,
-- and i64 is u64. The source keeps `cap` and never reads it.
use webos_bridge_64to.Common.{ℕ, zero, suc, ◌+◌, ◌*◌, ◌/◌, ◌%◌, List, [], ◌∷◌, update}

abbrev pub Buf : Type 0
Buf = ℕ → ℕ

pub record ArgWriter : Type 0 where
  pub buf : Buf
  pub pos : ℕ
  pub cap : ℕ

pub record ArgReader : Type 0 where
  pub buf : Buf
  pub pos : ℕ
  pub cap : ℕ

-- `memcpy(buf + pos, &v, n)`
unfoldable pub store : ℕ → ℕ → ℕ → Buf → Buf
store zero v pos buf = buf
store (suc n) v pos buf = store n (v / 256) (pos + 1) (update buf pos (v % 256))

-- `memcpy(&v, buf + pos, n)`
unfoldable pub load : ℕ → ℕ → Buf → ℕ
load zero pos buf = 0
load (suc n) pos buf = buf pos + 256 * load n (pos + 1) buf

unfoldable pub aw_init : Buf → ℕ → ArgWriter
aw_init buf cap = record { buf = buf; pos = 0; cap = cap }

unfoldable pub ar_init : Buf → ℕ → ArgReader
ar_init buf len = record { buf = buf; pos = 0; cap = len }

-- `_AW_WRITE` and `_AR_READ`, for a type of `n` bytes
unfoldable pub aw_write : ℕ → ℕ → ArgWriter → ArgWriter
aw_write n v w = record w { buf = store n v w.pos (w.buf); pos = w.pos + n }

unfoldable pub ar_read : ℕ → ArgReader → ℕ × ArgReader
ar_read n r = (load n r.pos (r.buf), record r { pos = r.pos + n })

unfoldable pub aw_u32 : ℕ → ArgWriter → ArgWriter
unfolding aw_write
aw_u32 v w = aw_write 4 v w

unfoldable pub aw_u64 : ℕ → ArgWriter → ArgWriter
unfolding aw_write
aw_u64 v w = aw_write 8 v w

unfoldable pub ar_u32 : ArgReader → ℕ × ArgReader
unfolding ar_read
ar_u32 r = ar_read 4 r

unfoldable pub ar_u64 : ArgReader → ℕ × ArgReader
unfolding ar_read
ar_u64 r = ar_read 8 r

-- One argument of a call.
pub data Arg : Type 0 where
  word32 : (value : ℕ) → Arg
  word64 : (value : ℕ) → Arg

unfoldable pub aw : Arg → ArgWriter → ArgWriter
aw (word32 v) w = aw_u32 v w
aw (word64 v) w = aw_u64 v w

unfoldable pub aw_all : List Arg → ArgWriter → ArgWriter
aw_all [] w = w
aw_all (a ∷ more) w = aw_all more (aw a w)

-- The handler reads arguments of the same types, in the same order.
unfoldable pub ar : Arg → ArgReader → ℕ × ArgReader
ar (word32 v) r = ar_u32 r
ar (word64 v) r = ar_u64 r

unfoldable pub ar_all : List Arg → ArgReader → List ℕ × ArgReader
ar_all [] r = ([], r)
ar_all (a ∷ more) r = let (v, r') = ar a r in let (vs, r'') = ar_all more r' in (v ∷ vs, r'')
