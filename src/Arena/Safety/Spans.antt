-- ===== src/Arena/Safety/Spans.antt =====
-- Which counts of the data segment of stub/bridge_core.c the commands in flight own: the invariant.
use webos_bridge_64to.Common.{
  ltb, Bool-cases, ℕ, ◌+◌, ◌%◌, ◌≤◌, ◌≡◌, false, List, [], ◌∷◌, ◌++◌, arith, refl,
}
use webos_bridge_64to.Arena.Alloc.{data_size, u64, placed, round4, alloc_attempt}
use webos_bridge_64to.Arena.Fit.{start_of, round4_lem, place_lem}
use webos_bridge_64to.Arena.State.{Region, Flight, Arena, opened}

-- A region between two counts that does not run over the end of the segment.
abbrev pub IsInside : ℕ → ℕ → Region → Type 0
IsInside lo hi r =
    (lo ≤ r.start) × (r.start + r.size ≤ hi) × (r.start % data_size + r.size ≤ data_size)

abbrev pub AllInside : ℕ → ℕ → List Region → Type 0
AllInside lo hi [] = Unit {0}
AllInside lo hi (r ∷ rs) = IsInside lo hi r × AllInside lo hi rs

-- A command's regions lie between its begin and its watermark; only a valid watermark has any.
pub record IsOwner (f : Flight) : Type 0 where
  pub order : f.begun ≤ f.data_watermark
  pub inside : AllInside f.begun f.data_watermark f.regions
  pub idle : f.data_watermark_valid ≡ false → f.data_watermark ≡ f.begun

-- The commands in flight own consecutive stretches of the counts from `lo` to `hi`.
abbrev pub Spans : ℕ → List Flight → ℕ → Type 0
Spans lo [] hi = lo ≤ hi
Spans lo (f ∷ fs) hi = (lo ≤ f.begun) × IsOwner f × Spans f.data_watermark fs hi

pub record Inv (a : Arena) : Type 0 where
  pub spans : Spans a.tail a.published a.current.begun
  pub owner : IsOwner a.current
  pub top : a.current.data_watermark ≡ a.head
  pub room : a.head ≤ a.tail + data_size

pub Spans-le : {lo hi : ℕ} (fs : List Flight) → Spans lo fs hi → lo ≤ hi
Spans-le [] h = h
Spans-le {lo} {hi} (f ∷ fs) (le, owner, rest) = omega (arith, owner.order, Spans-le fs rest)

pub Spans-lower :
    {lo lo' : ℕ} (hi : ℕ) (fs : List Flight) → lo' ≤ lo → Spans lo fs hi → Spans lo' fs hi
Spans-lower hi [] le h = omega arith
Spans-lower hi (f ∷ fs) le (first, owner, rest) = (omega arith, owner, rest)

pub Spans-snoc :
    (lo hi : ℕ) (fs : List Flight) (f : Flight)
    → Spans lo fs f.begun
    → IsOwner f
    → f.data_watermark ≡ hi
    → Spans lo (fs ++ (f ∷ [])) hi
Spans-snoc lo hi [] f h owner e = (h, owner, omega arith)
Spans-snoc lo hi (g ∷ fs) f (le, own, rest) owner e =
    (le, own, Spans-snoc g.data_watermark hi fs f rest owner e)

pub AllInside-widen :
    {lo hi lo' hi' : ℕ} (rs : List Region)
    → lo' ≤ lo
    → hi ≤ hi'
    → AllInside lo hi rs
    → AllInside lo' hi' rs
AllInside-widen [] le ge h = tt
AllInside-widen (r ∷ rs) le ge h = (omega arith, AllInside-widen rs le ge h.1)

pub opened-IsOwner : (n : ℕ) → IsOwner (opened n)
opened-IsOwner n = record { order = omega arith; inside = tt; idle = λ _. refl }

-- What `place` says at an arena that is in order.
pub placement :
    (size : ℕ) {a : Arena} {offset new_head : ℕ}
    → Inv a
    → alloc_attempt size (u64 a.head) (u64 a.tail) ≡ placed offset new_head
    → (round4 size ≤ data_size)
      × (size ≤ round4 size)
      × (start_of (round4 size) a.head + round4 size ≤ a.tail + data_size)
      × (offset ≡ start_of (round4 size) a.head % data_size)
      × (new_head ≡ u64 (start_of (round4 size) a.head + round4 size))
unfolding alloc_attempt
placement size {a} inv e = ground (
  arith,
  Bool-cases (ltb data_size size),
  round4_lem size,
  place_lem (round4 size) a.head a.tail,
  Spans-le {lo = a.tail} {hi = a.current.begun} a.published inv.spans,
)
