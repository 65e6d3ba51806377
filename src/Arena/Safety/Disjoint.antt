-- ===== src/Arena/Safety/Disjoint.antt =====
-- The bytes of a new write in the data segment of stub/bridge_core.c, and those of the commands in flight.
use webos_bridge_64to.Common.{ℕ, ◌+◌, ◌%◌, ◌≤◌, ◌≡◌, ◌⊎◌, inl, inr, List, [], ◌∷◌, ◌++◌, arith}
use native.Mathlib.Decide.{dec_le}
use webos_bridge_64to.Arena.Alloc.{data_size, u64, placed, round4, alloc_attempt}
use webos_bridge_64to.Arena.Fit.{start_of, start_of_fits}
use webos_bridge_64to.Arena.State.{Region, Flight, Arena, Reach}
use webos_bridge_64to.Arena.Safety.Spans.{
  IsInside, AllInside, Spans, Inv, Spans-le, AllInside-widen, placement,
}
use webos_bridge_64to.Arena.Safety.Write.{Reach-Inv}

-- The regions that the proxy may still read: those of the published commands and of the current one.
abbrev pub regions_of : List Flight → List Region
regions_of [] = []
regions_of (f ∷ fs) = f.regions ++ regions_of fs

abbrev pub live : Arena → List Region
live a = regions_of a.published ++ a.current.regions

-- Two stretches of bytes of the segment have no byte in common.
abbrev pub IsDisjoint : ℕ → ℕ → Region → Type 0
IsDisjoint offset size r =
    (offset + size ≤ r.start % data_size) ⊎ (r.start % data_size + r.size ≤ offset)

abbrev pub AllDisjoint : ℕ → ℕ → List Region → Type 0
AllDisjoint offset size [] = Unit {0}
AllDisjoint offset size (r ∷ rs) = IsDisjoint offset size r × AllDisjoint offset size rs

AllInside-append :
    (lo hi : ℕ) (rs ss : List Region)
    → AllInside lo hi rs
    → AllInside lo hi ss
    → AllInside lo hi (rs ++ ss)
AllInside-append lo hi [] ss h k = k
AllInside-append lo hi (r ∷ rs) ss h k = (h.0, AllInside-append lo hi rs ss h.1 k)

Spans-AllInside : (lo hi : ℕ) (fs : List Flight) → Spans lo fs hi → AllInside lo hi (regions_of fs)
Spans-AllInside lo hi [] h = tt
Spans-AllInside lo hi (f ∷ fs) (le, owner, rest) =
    let top = Spans-le {lo = f.data_watermark} {hi = hi} fs rest in
    AllInside-append lo hi f.regions (regions_of fs) (AllInside-widen f.regions le top owner.inside)
      (AllInside-widen (regions_of fs) (omega (arith, owner.order)) (omega arith)
        (Spans-AllInside f.data_watermark hi fs rest))

pub live-AllInside : {a : Arena} → Inv a → AllInside a.tail a.head (live a)
live-AllInside {a} inv =
    let le = Spans-le {lo = a.tail} {hi = a.current.begun} a.published inv.spans in
    AllInside-append a.tail a.head (regions_of a.published) a.current.regions
      (AllInside-widen (regions_of a.published) (omega arith)
        (omega (arith, inv.owner.order, inv.top))
        (Spans-AllInside a.tail a.current.begun a.published inv.spans))
      (AllInside-widen a.current.regions le (omega (arith, inv.top)) inv.owner.inside)

-- Two stretches of counts one after the other, within one segment's length, none over its end.
IsDisjoint-in_window :
    (tail head start size : ℕ) (r : Region)
    → IsInside tail head r
    → head ≤ start
    → start + size ≤ tail + data_size
    → start % data_size + size ≤ data_size
    → IsDisjoint (start % data_size) size r
IsDisjoint-in_window tail head start size r inside after room fits =
    elim (dec_le (start % data_size + size) (r.start % data_size)) [
      | yes below ↦ inl below
      | no above ↦ inr (omega arith)
    ]

AllDisjoint-in_window :
    (tail head start size : ℕ) (rs : List Region)
    → AllInside tail head rs
    → head ≤ start
    → start + size ≤ tail + data_size
    → start % data_size + size ≤ data_size
    → AllDisjoint (start % data_size) size rs
AllDisjoint-in_window tail head start size [] inside after room fits = tt
AllDisjoint-in_window tail head start size (r ∷ rs) inside after room fits = (
  IsDisjoint-in_window tail head start size r inside.0 after room fits,
  AllDisjoint-in_window tail head start size rs inside.1 after room fits,
)

-- In every state that the two processes reach: when a round of `ring_data_alloc` places a request,
-- its bytes lie inside the segment, have no byte in common with those of any command that the proxy
-- has not completed or of an earlier write of the same command, and the new head that the code
-- stores is the end of the request, modulo 2 ^ 64.
pub write_safe :
    (size : ℕ) {a : Arena} {offset new_head : ℕ}
    → Reach a
    → alloc_attempt size (u64 a.head) (u64 a.tail) ≡ placed offset new_head
    → (offset + size ≤ data_size)
      × AllDisjoint offset (round4 size) (live a)
      × (new_head ≡ u64 (start_of (round4 size) a.head + round4 size))
write_safe size {a} {offset} {new_head} r e =
    let inv = Reach-Inv r in
    let (fits, larger, room, at, top) = placement size inv e in
    let (ge, near, inside) = start_of_fits (round4 size) a.head fits in
    (
      omega arith,
      rw at (
          AllDisjoint-in_window a.tail a.head (start_of (round4 size) a.head) (round4 size) (live a)
            (live-AllInside inv) ge room inside),
      top,
    )
