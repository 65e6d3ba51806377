-- ===== src/Sync/Fresh.antt =====
-- Which handles `bridge_sync_alloc` of stub/bridge_core.c gives out.
use webos_bridge_64to.Common.{
  ℕ, zero, suc, ◌+◌, ◌-◌, ◌*◌, ◌/◌, ◌%◌, ◌^◌, ◌≤◌, ◌<◌, ◌≡◌, ◌≢◌, ◌↔◌, bit_and, bit_or, ◌==◌, arith,
  refl, sym, ◌∙◌, ap, true, false,
}
use native.Mathlib.Decide.{ℕ_discrete}
use webos_bridge_64to.Common.Bits.{bit_and_mask, bit_or_fields}
use webos_bridge_64to.Sync.Handles.{
  Syncs, max_syncs, sync_id_bits, sync_id_mask, candidate, next_gen, handle_of, take_id, alloc_from,
  bridge_sync_alloc,
}

pub record IsValid (s : Syncs) : Type 0 where
  pub next_low : 1 ≤ s.next
  pub next_high : s.next ≤ max_syncs
  pub gen_small : s.gen < 2 ^ 24

abbrev pub id_of : ℕ → ℕ
id_of handle = bit_and handle sync_id_mask

abbrev pub gen_of : ℕ → ℕ
gen_of handle = handle / 2 ^ sync_id_bits

pub next_gen_bounds : (g : ℕ) → (1 ≤ next_gen g) × (next_gen g < 2 ^ 24)
unfolding next_gen
next_gen_bounds g = ground (arith, bit_and_mask 24 (g + 1))

pub next_gen_lem : (g : ℕ) → g + 1 < 2 ^ 24 → next_gen g ≡ g + 1
unfolding next_gen
next_gen_lem g h = ground (arith, bit_and_mask 24 (g + 1))

-- A handle gives its parts back.
pub handle_parts :
    (gen id : ℕ)
    → gen < 2 ^ 24
    → id < 256
    → (id_of (handle_of gen id) ≡ id) × (gen_of (handle_of gen id) ≡ gen)
unfolding handle_of
handle_parts gen id g i =
    let whole : bit_or (gen * 256 % 2 ^ 32) id ≡ gen * 256 + id =
      ap (λ (t : ℕ). bit_or t id) (omega arith) ∙ bit_or_fields 8 gen id i in
    (bit_and_mask 8 _ ∙ omega (arith, whole), omega (arith, whole))

candidate_lem :
    (next n : ℕ)
    → 1 ≤ next
    → next ≤ 256
    → 1 ≤ n
    → n ≤ 255
    → candidate next n ≡ 1 + (next - 1 + (n - 1)) % 255
unfolding candidate
candidate_lem next n lo hi nlo nhi = omega arith

-- Each id has its round.
round_of : ℕ → ℕ → ℕ
round_of next id = 1 + (id - 1 + 510 - (next - 1)) % 255

round_of_lem :
    (next id : ℕ)
    → 1 ≤ next
    → next ≤ 256
    → 1 ≤ id
    → id ≤ 255
    → (1 ≤ round_of next id) × (round_of next id ≤ 255) × (candidate next (round_of next id) ≡ id)
unfolding round_of candidate
round_of_lem next id lo hi ilo ihi = omega arith

pub alloc_from-taken :
    (fuel n : ℕ) (s : Syncs)
    → IsValid s
    → 1 ≤ n
    → n + fuel ≤ 256
    → (alloc_from fuel n s).0 ≢ 0
    → (id : ℕ) × (1 ≤ id) × (id ≤ 255) × (s.used id ≡ 0) × (alloc_from fuel n s ≡ take_id id s)
unfolding alloc_from
alloc_from-taken zero n s v lo hi h = absurd (h refl)
alloc_from-taken (suc fuel) n s v lo hi h =
    let id = candidate s.next n in
    let in_range : (1 ≤ id) × (id ≤ 255) =
      omega (arith, candidate_lem s.next n v.next_low v.next_high lo (omega arith)) in
    elim (ℕ_discrete (s.used id) 0) [
      | yes free ↦
          let free_test : (s.used id == 0) ≡ true = ground (arith, free) in
          (id, in_range.0, in_range.1, free, rw free_test refl)
      | no taken ↦
          let taken_test : (s.used id == 0) ≡ false = ground (arith, taken) in
          let later : alloc_from (suc fuel) n s ≡ alloc_from fuel (n + 1) s = rw taken_test refl in
          let (found, a, b, c, e) =
            alloc_from-taken fuel (n + 1) s v (omega arith) (omega arith)
              (λ z. h (ap (λ (r : ℕ × Syncs). r.0) later ∙ z)) in
          (found, a, b, c, later ∙ e)
    ]

take_id-handle :
    (id : ℕ) (s : Syncs)
    → id ≤ 255
    → (id_of (take_id id s).0 ≡ id) × (gen_of (take_id id s).0 ≡ next_gen s.gen)
unfolding take_id
take_id-handle id s h = handle_parts (next_gen s.gen) id (next_gen_bounds s.gen).1 (omega arith)

take_id-nonzero : (id : ℕ) (s : Syncs) → 1 ≤ id → id ≤ 255 → (take_id id s).0 ≢ 0
take_id-nonzero id s lo hi z =
    let back : id_of (take_id id s).0 ≡ 0 = ap id_of z in
    omega (arith, back, (take_id-handle id s hi).0)

-- What `take_id` leaves.
take_id_lem :
    (id : ℕ) (s : Syncs)
    → id ≤ 255
    → ((take_id id s).1.used id ≡ 1) × ((i : ℕ) → i ≢ id → (take_id id s).1.used i ≡ s.used i)
unfolding take_id
take_id_lem id s hi = (ground arith, λ i ne. ground arith)

pub alloc_from-refused :
    (fuel n : ℕ) (s : Syncs)
    → IsValid s
    → 1 ≤ n
    → n + fuel ≤ 256
    → (alloc_from fuel n s).0 ≡ 0
    → (k : ℕ) → n ≤ k
    → k < n + fuel
    → s.used (candidate s.next k) ≢ 0
unfolding alloc_from
alloc_from-refused zero n s v lo hi h k klo khi = absurd (omega arith)
alloc_from-refused (suc fuel) n s v lo hi h k klo khi =
    let id = candidate s.next n in
    let in_range : (1 ≤ id) × (id ≤ 255) =
      omega (arith, candidate_lem s.next n v.next_low v.next_high lo (omega arith)) in
    elim (ℕ_discrete (s.used id) 0) [
      | yes free ↦
          let free_test : (s.used id == 0) ≡ true = ground (arith, free) in
          let now : alloc_from (suc fuel) n s ≡ take_id id s = rw free_test refl in
          absurd
            (take_id-nonzero id s in_range.0 in_range.1 (ap (λ (r : ℕ × Syncs). r.0) (sym now) ∙ h))
      | no taken ↦
          let taken_test : (s.used id == 0) ≡ false = ground (arith, taken) in
          let later : alloc_from (suc fuel) n s ≡ alloc_from fuel (n + 1) s = rw taken_test refl in
          let rest =
            alloc_from-refused fuel (n + 1) s v (omega arith) (omega arith)
              (ap (λ (r : ℕ × Syncs). r.0) (sym later) ∙ h) k in
          elim (ℕ_discrete n k) [
            | yes same ↦ λ z. taken (ap (λ (j : ℕ). s.used (candidate s.next j)) same ∙ z)
            | no other ↦ rest (omega (arith, other)) (omega arith)
          ]
    ]

-- In a valid state, `bridge_sync_alloc` that returns a handle other than 0 returns an id from 1 to 255 whose flag
-- is not set, sets that flag and no other, and gives the id the next generation; the handle gives back its id and
-- its generation.
pub alloc_is_fresh :
    (s : Syncs)
    → IsValid s
    → let (h, t) = bridge_sync_alloc s in
      h ≢ 0
      → (1 ≤ id_of h)
        × (id_of h ≤ 255)
        × (s.used (id_of h) ≡ 0)
        × (t.used (id_of h) ≡ 1)
        × (gen_of h ≡ next_gen s.gen)
        × ((i : ℕ) → i ≢ id_of h → t.used i ≡ s.used i)
unfolding bridge_sync_alloc
alloc_is_fresh s v h =
    let (id, lo, hi, free, e) = alloc_from-taken 255 1 s v (omega arith) (omega arith) h in
    let parts = take_id-handle id s hi in
    let left = take_id_lem id s hi in rw (e, parts.0, parts.1) (lo, hi, free, left.0, refl, left.1)

-- In a valid state, `bridge_sync_alloc` returns 0 exactly when each of the ids from 1 to 255 is used.
alloc_refuses_when_used_up :
    (s : Syncs)
    → IsValid s
    → ((bridge_sync_alloc s).0 ≡ 0) ↔ ((id : ℕ) → 1 ≤ id → id ≤ 255 → s.used id ≢ 0)
unfolding bridge_sync_alloc
alloc_refuses_when_used_up s v = (
  λ h id lo hi.
      let (a, b, e) = round_of_lem s.next id v.next_low v.next_high lo hi in
      let taken =
        alloc_from-refused 255 1 s v (omega arith) (omega arith) h (round_of s.next id) a
          (omega arith) in
      λ z. taken (ap (λ (j : ℕ). s.used j) e ∙ z),
  λ full. elim (ℕ_discrete (alloc_from 255 1 s).0 0) [
    | yes zero_handle ↦ zero_handle
    | no some_handle ↦
        let (id, lo, hi, free, e) =
          alloc_from-taken 255 1 s v (omega arith) (omega arith) some_handle in
        absurd (full id lo hi free)
  ],
)
