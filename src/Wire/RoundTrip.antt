-- ===== src/Wire/RoundTrip.antt =====
-- Writing and reading the packed arguments of include/gles_bridge_protocol.h.
use webos_bridge_64to.Common.{
  ℕ, zero, suc, ◌+◌, ◌*◌, ◌/◌, ◌%◌, ◌^◌, ◌≤◌, ◌<◌, ◌≡◌, List, [], ◌∷◌, update, refl, ap, sym, ◌∙◌,
  arith,
}
use native.Mathlib.Nat.{pow-suc, one-le-pow}
use webos_bridge_64to.Wire.Args.{
  Buf, ArgWriter, ArgReader, store, load, aw_init, ar_init, aw_u32, aw_u64, ar_u32, ar_u64, Arg,
  word32, word64, aw, aw_all, ar, ar_all,
}

abbrev pub size : Arg → ℕ
size (word32 v) = 4
size (word64 v) = 8

abbrev pub value : Arg → ℕ
value (word32 v) = v
value (word64 v) = v

abbrev pub sizes : List Arg → ℕ
sizes [] = 0
sizes (a ∷ more) = size a + sizes more

-- The arguments as their types hold them.
abbrev pub values : List Arg → List ℕ
values [] = []
values (a ∷ more) = (value a % 2 ^ (8 * size a)) ∷ values more

store-before : (n v pos : ℕ) (buf : Buf) (i : ℕ) → i < pos → store n v pos buf i ≡ buf i
unfolding store
store-before zero v pos buf i h = refl
store-before (suc n) v pos buf i h =
    ground (arith, store-before n (v / 256) (pos + 1) (update buf pos (v % 256)) i)

load-same :
    (n pos : ℕ) (b b' : Buf)
    → ((i : ℕ) → pos ≤ i → i < pos + n → b i ≡ b' i)
    → load n pos b ≡ load n pos b'
unfolding load
load-same zero pos b b' same = refl
load-same (suc n) pos b b' same =
    let rest = load-same n (pos + 1) b b' (λ i lo hi. same i (omega arith) (omega arith)) in
    omega (arith, rest, same pos (omega arith) (omega arith))

mod_split : (v m : ℕ) → 0 < m → v % (m * 256) ≡ v % 256 + 256 * (v / 256 % m)
mod_split v m h = grind arith

load-store : (n v pos : ℕ) (buf : Buf) → load n pos (store n v pos buf) ≡ v % 256 ^ n
unfolding load store
load-store zero v pos buf = omega arith
load-store (suc n) v pos buf =
    let low = store-before n (v / 256) (pos + 1) (update buf pos (v % 256)) pos (omega arith) in
    let rest = load-store n (v / 256) (pos + 1) (update buf pos (v % 256)) in
    let here : update buf pos (v % 256) pos ≡ v % 256 = ground arith in
    let split : v % 256 ^ suc n ≡ v % 256 + 256 * (v / 256 % 256 ^ n) =
      rw (pow-suc 256 n) (mod_split v (256 ^ n) (one-le-pow n 256 (omega arith))) in
    let whole : load (suc n) pos (store (suc n) v pos buf) ≡ v % 256 + 256 * (v / 256 % 256 ^ n) =
      omega (arith, low, here, rest) in
    whole ∙ sym split

byte_power : (a : Arg) → 256 ^ size a ≡ 2 ^ (8 * size a)
byte_power (word32 v) = refl
byte_power (word64 v) = refl

aw-pos : (a : Arg) (w : ArgWriter) → (aw a w).pos ≡ w.pos + size a
unfolding aw aw_u32 aw_u64
aw-pos (word32 v) w = refl
aw-pos (word64 v) w = refl

aw-buf : (a : Arg) (w : ArgWriter) → (aw a w).buf ≡ store (size a) (value a) w.pos (w.buf)
unfolding aw aw_u32 aw_u64
aw-buf (word32 v) w = refl
aw-buf (word64 v) w = refl

-- What is written later leaves the earlier bytes.
aw_all-before :
    (args : List Arg) (w : ArgWriter) (i : ℕ) → i < w.pos → (aw_all args w).buf i ≡ w.buf i
unfolding aw_all
aw_all-before [] w i h = refl
aw_all-before (a ∷ more) w i h =
    aw_all-before more (aw a w) i (omega (arith, aw-pos a w))
    ∙ ap (λ (b : Buf). b i) (aw-buf a w)
    ∙ store-before (size a) (value a) w.pos (w.buf) i h

ar_lem :
    (a : Arg) (r : ArgReader)
    → ar a r ≡ (load (size a) r.pos (r.buf), record r { pos = r.pos + size a })
unfolding ar ar_u32 ar_u64
ar_lem (word32 v) r = refl
ar_lem (word64 v) r = refl

-- The reader of a buffer that has more written to it: it reads the first argument and stands at the next.
pub read_first :
    (a : Arg) (more : List Arg) (w : ArgWriter) (len : ℕ)
    → ar a (record { buf = (aw_all more (aw a w)).buf; pos = w.pos; cap = len }) ≡ (
      value a % 2 ^ (8 * size a),
      record { buf = (aw_all more (aw a w)).buf; pos = (aw a w).pos; cap = len },
    )
read_first a more w len =
    let r : ArgReader = record { buf = (aw_all more (aw a w)).buf; pos = w.pos; cap = len } in
    let stored : load (size a) w.pos (r.buf) ≡ value a % 2 ^ (8 * size a) =
      load-same (size a) w.pos (r.buf) (store (size a) (value a) w.pos (w.buf)) (λ i lo hi.
        aw_all-before more (aw a w) i (omega (arith, aw-pos a w))
        ∙ ap (λ (b : Buf). b i) (aw-buf a w))
      ∙ load-store (size a) (value a) w.pos (w.buf)
      ∙ ap (λ (t : ℕ). value a % t) (byte_power a) in
    rw (ar_lem a r, stored, aw-pos a w) refl

read_from :
    (args : List Arg) (w : ArgWriter) (len : ℕ)
    → (ar_all args (record { buf = (aw_all args w).buf; pos = w.pos; cap = len })).0 ≡ values args
unfolding ar_all aw_all
read_from [] w len = refl
read_from (a ∷ more) w len = rw (read_first a more w len, read_from more (aw a w) len) refl

aw_all-pos : (args : List Arg) (w : ArgWriter) → (aw_all args w).pos ≡ w.pos + sizes args
unfolding aw_all
aw_all-pos [] w = omega arith
aw_all-pos (a ∷ more) w = omega (arith, aw_all-pos more (aw a w), aw-pos a w)

store-after : (n v pos : ℕ) (buf : Buf) (i : ℕ) → pos + n ≤ i → store n v pos buf i ≡ buf i
unfolding store
store-after zero v pos buf i h = refl
store-after (suc n) v pos buf i h =
    ground (arith, store-after n (v / 256) (pos + 1) (update buf pos (v % 256)) i)

aw_all-after :
    (args : List Arg) (w : ArgWriter) (i : ℕ)
    → w.pos + sizes args ≤ i
    → (aw_all args w).buf i ≡ w.buf i
unfolding aw_all
aw_all-after [] w i h = refl
aw_all-after (a ∷ more) w i h =
    aw_all-after more (aw a w) i (omega (arith, h, aw-pos a w))
    ∙ ap (λ (b : Buf). b i) (aw-buf a w)
    ∙ store-after (size a) (value a) w.pos (w.buf) i (omega (arith, h))

-- Whatever arguments the stub packs, in whatever buffer: a handler that reads arguments of the same types in
-- the same order gets the values that their types hold, from the first to the last.
pub args_round_trip :
    (args : List Arg) (buf : Buf) (cap len : ℕ)
    → (ar_all args (ar_init (aw_all args (aw_init buf cap)).buf len)).0 ≡ values args
unfolding aw_init ar_init
args_round_trip args buf cap len = read_from args (aw_init buf cap) len

-- Packing arguments moves `pos` by the sizes of their types, and writes no byte from there on: arguments
-- whose sizes sum to at most the size of the buffer stay inside it.
args_stay_inside :
    (args : List Arg) (buf : Buf) (cap : ℕ)
    → let w = aw_all args (aw_init buf cap) in
      (w.pos ≡ sizes args) × ((i : ℕ) → sizes args ≤ i → w.buf i ≡ buf i)
unfolding aw_init
args_stay_inside args buf cap = (
  aw_all-pos args (aw_init buf cap) ∙ omega arith,
  λ i h. aw_all-after args (aw_init buf cap) i (omega (arith, h)),
)
