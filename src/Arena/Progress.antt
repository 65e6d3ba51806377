-- ===== src/Arena/Progress.antt =====
-- The end of the retry loop of `ring_data_alloc` in stub/bridge_core.c.
use webos_bridge_64to.Common.{
  ℕ, ◌+◌, ◌-◌, ◌%◌, ◌/◌, ◌≤◌, ◌<◌, ◌≡◌, ◌⊎◌, inl, inr, List, [], ◌∷◌, ◌++◌, arith, refl,
}
use mathlib.Core.List.{map}
use native.Mathlib.Decide.{dec_le}
use webos_bridge_64to.Arena.Alloc.{
  data_size, u64, full, placed, round4, alloc_attempt, place, ring_data_alloc,
}
use webos_bridge_64to.Arena.Fit.{start_of, round4_lem, place_lem}

-- A request fits at one end of an empty segment: behind the head, or in front of it.
abbrev pub FitsAtHead : ℕ → ℕ → Type 0
FitsAtHead size head =
    (round4 size ≤ data_size - head % data_size) ⊎ (round4 size ≤ head % data_size)

-- What the loop may load as the tail: a count at most one segment behind the head.
abbrev pub AreTails : ℕ → List ℕ → Type 0
AreTails head [] = Unit {0}
AreTails head (t ∷ ts) = (t ≤ head) × (head ≤ t + data_size) × AreTails head ts

attempt_at :
    (size head tail : ℕ)
    → size ≤ data_size
    → alloc_attempt size (u64 head) (u64 tail) ≡ place (round4 size) (u64 head) (u64 tail)
unfolding alloc_attempt
attempt_at size head tail h = ground arith

-- An attempt succeeds exactly when its end is at most one segment past the tail.
attempt_drained :
    (size head : ℕ)
    → size ≤ data_size
    → FitsAtHead size head
    → alloc_attempt size (u64 head) (u64 head)
      ≡ placed
          (start_of (round4 size) head % data_size)
          (u64 (start_of (round4 size) head + round4 size))
attempt_drained size head h fits =
    ground
      (arith, attempt_at size head head h, round4_lem size h, place_lem (round4 size) head head)

attempt_misfit :
    (size head tail : ℕ)
    → size ≤ data_size
    → data_size - head % data_size < round4 size
    → head % data_size < round4 size
    → tail ≤ head
    → head ≤ tail + data_size
    → alloc_attempt size (u64 head) (u64 tail) ≡ full
attempt_misfit size head tail h behind before le room =
    ground
      (arith, attempt_at size head tail h, round4_lem size h, place_lem (round4 size) head tail)

-- A round places a request that fits, always at the same place, or finds the segment full.
attempt_fits :
    (size head tail : ℕ)
    → size ≤ data_size
    → FitsAtHead size head
    → tail ≤ head
    → head ≤ tail + data_size
    → (alloc_attempt size (u64 head) (u64 tail)
        ≡ placed
            (start_of (round4 size) head % data_size)
            (u64 (start_of (round4 size) head + round4 size)))
      ⊎ (alloc_attempt size (u64 head) (u64 tail) ≡ full)
attempt_fits size head tail h fits le room =
    ground
      (arith, attempt_at size head tail h, round4_lem size h, place_lem (round4 size) head tail)

-- The loop returns with a place: once the proxy has released everything, a request that fits behind the head or
-- in front of it is placed there, whatever the earlier rounds saw of a tail that is at most one segment behind the
-- head: at the offset of the start that `start_of` picks, with the head moved to the end of the request. It does not
-- abort.
pub alloc_returns :
    (size head : ℕ) (tails : List ℕ)
    → size ≤ data_size
    → FitsAtHead size head
    → AreTails head tails
    → ring_data_alloc size (u64 head) (map u64 tails ++ (u64 head ∷ []))
      ≡ placed
          (start_of (round4 size) head % data_size)
          (u64 (start_of (round4 size) head + round4 size))
unfolding ring_data_alloc
alloc_returns size head [] h fits seen = ground (arith, attempt_drained size head h fits)
alloc_returns size head (t ∷ tails) h fits (le, room, seen) =
    ground
      (arith, attempt_fits size head t h fits le room, alloc_returns size head tails h fits seen)

pub half_fits : (size head : ℕ) → size ≤ data_size / 2 → FitsAtHead size head
half_fits size head h = elim (dec_le (round4 size) (head % data_size)) [
  | yes before ↦ inr before
  | no after ↦ inl (omega (arith, round4_lem size (omega arith)))
]

-- A request of at most 32 MB is placed once the proxy has released everything, wherever the head is.
alloc_returns_half :
    (size head : ℕ) (tails : List ℕ)
    → size ≤ data_size / 2
    → AreTails head tails
    → ring_data_alloc size (u64 head) (map u64 tails ++ (u64 head ∷ []))
      ≡ placed
          (start_of (round4 size) head % data_size)
          (u64 (start_of (round4 size) head + round4 size))
alloc_returns_half size head tails h seen =
    alloc_returns size head tails (omega arith) (half_fits size head h) seen

-- The loop never returns on a request that fits neither behind the head nor in front of it, however
-- far the proxy gets: a request larger than 32 MB may wait for ever on an empty segment.
pub alloc_stuck :
    (size head : ℕ) (tails : List ℕ)
    → size ≤ data_size
    → data_size - head % data_size < round4 size
    → head % data_size < round4 size
    → AreTails head tails
    → ring_data_alloc size (u64 head) (map u64 tails) ≡ full
unfolding ring_data_alloc
alloc_stuck size head [] h behind before seen = refl
alloc_stuck size head (t ∷ tails) h behind before (le, room, seen) = ground (
  arith,
  attempt_misfit size head t h behind before le room,
  alloc_stuck size head tails h behind before seen,
)
