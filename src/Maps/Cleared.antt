-- ===== src/Maps/Cleared.antt =====
-- What the loops over the slots find and clear.
use webos_bridge_64to.Common.{
  ℕ, zero, suc, ◌+◌, ◌≤◌, ◌<◌, ◌≡◌, refl, inl, inr, Bool, true, false, not, ◌&&◌, none, some, arith,
  ◌==◌, sym, ◌∙◌, ◌⊎◌, ℕ_discrete, Bool-cases,
}
use webos_bridge_64to.Maps.State.{StubMaps, clear_from, clear_slot, first_from, is_of, no_map}

-- A search that finds nothing.
pub first_from-none {ℓ} :
    {A : Type ℓ} (test : A → Bool) (n i : ℕ) (maps : ℕ → A)
    → first_from test n i maps ≡ none
    → (j : ℕ) → i ≤ j
    → j < i + n
    → test (maps j) ≡ false
unfolding first_from
first_from-none test zero i maps h j low high = absurd (omega arith)
first_from-none test (suc n) i maps h j low high =
    let rest : first_from test n (i + 1) maps ≡ none = ground arith in
    let here : test (maps i) ≡ false = ground arith in
    let next : i + 1 ≤ j → test (maps j) ≡ false =
      λ after. first_from-none test n (i + 1) maps rest j after (omega arith) in
    elim (ℕ_discrete i j) [ yes e ↦ ground arith | no ne ↦ next (omega arith) ]

-- What a search finds.
pub first_from-some {ℓ} :
    {A : Type ℓ} (test : A → Bool) (n i : ℕ) (maps : ℕ → A) (j : ℕ)
    → first_from test n i maps ≡ some j
    → (i ≤ j) × ((j < i + n) × (test (maps j) ≡ true))
unfolding first_from
first_from-some test zero i maps j h = ground arith
first_from-some test (suc n) i maps j h = elim (Bool-cases (test (maps i))) [
  | inl here ↦ ground arith
  | inr there ↦ ground (arith, first_from-some test n (i + 1) maps j (ground arith))
]

-- A search finds the first slot that passes.
pub first_from-here {ℓ} :
    {A : Type ℓ} (test : A → Bool) (n i : ℕ) (maps : ℕ → A) (j : ℕ)
    → i ≤ j
    → j < i + n
    → test (maps j) ≡ true
    → ((k : ℕ) → i ≤ k → k < j → test (maps k) ≡ false)
    → first_from test n i maps ≡ some j
unfolding first_from
first_from-here test zero i maps j low high here before = absurd (omega arith)
first_from-here test (suc n) i maps j low high here before = elim (ℕ_discrete i j) [
  | yes e ↦ ground arith
  | no ne ↦
      let skipped : test (maps i) ≡ false = before i (omega arith) (omega arith) in
      rw skipped (
        first_from-here test n (i + 1) maps j (omega arith) (omega arith) here
          (λ k low' high'. before k (omega arith) high'))
]

-- A round leaves the slots that are not of the buffer, and the slot of the new map.
pub clear_slot-skips :
    (i buf map_id : ℕ) (s : StubMaps) (j : ℕ)
    → is_of buf (s.maps j) && not (j == map_id) ≡ false
    → (clear_slot i buf map_id s).maps j ≡ s.maps j
unfolding clear_slot
clear_slot-skips i buf map_id s j h = ground arith

pub clear_slot-clears :
    (i buf map_id : ℕ) (s : StubMaps)
    → is_of buf ((clear_slot i buf map_id s).maps i) && not (i == map_id) ≡ false
unfolding clear_slot
clear_slot-clears i buf map_id s = ground arith

-- A round clears a slot or leaves it.
pub clear_slot-cases :
    (i buf map_id : ℕ) (s : StubMaps) (j : ℕ)
    → ((clear_slot i buf map_id s).maps j ≡ s.maps j)
      ⊎ ((clear_slot i buf map_id s).maps j ≡ no_map)
unfolding clear_slot
clear_slot-cases i buf map_id s j = ground arith

pub clear_from-skips :
    (n i buf map_id : ℕ) (s : StubMaps) (j : ℕ)
    → is_of buf (s.maps j) && not (j == map_id) ≡ false
    → (clear_from n i buf map_id s).maps j ≡ s.maps j
unfolding clear_from
clear_from-skips zero i buf map_id s j h = refl
clear_from-skips (suc n) i buf map_id s j h =
    let same : (clear_slot i buf map_id s).maps j ≡ s.maps j =
      clear_slot-skips i buf map_id s j h in
    clear_from-skips n (i + 1) buf map_id (clear_slot i buf map_id s) j (rw same h) ∙ same

-- The loop leaves no other slot of the buffer.
pub clear_from-clears :
    (n i buf map_id : ℕ) (s : StubMaps) (j : ℕ)
    → i ≤ j
    → j < i + n
    → is_of buf ((clear_from n i buf map_id s).maps j) && not (j == map_id) ≡ false
unfolding clear_from
clear_from-clears zero i buf map_id s j low high = absurd (omega arith)
clear_from-clears (suc n) i buf map_id s j low high = elim (ℕ_discrete i j) [
  | no ne ↦
      clear_from-clears n (i + 1) buf map_id (clear_slot i buf map_id s) j (omega arith)
        (omega arith)
  | yes e ↦
      let here : is_of buf ((clear_slot i buf map_id s).maps j) && not (j == map_id) ≡ false =
        rw (sym e) (clear_slot-clears i buf map_id s) in
      rw (clear_from-skips n (i + 1) buf map_id (clear_slot i buf map_id s) j here) here
]

pub clear_from-cases :
    (n i buf map_id : ℕ) (s : StubMaps) (j : ℕ)
    → ((clear_from n i buf map_id s).maps j ≡ s.maps j)
      ⊎ ((clear_from n i buf map_id s).maps j ≡ no_map)
unfolding clear_from
clear_from-cases zero i buf map_id s j = inl refl
clear_from-cases (suc n) i buf map_id s j =
    elim (clear_from-cases n (i + 1) buf map_id (clear_slot i buf map_id s) j) [
      | inr gone ↦ inr gone
      | inl same ↦ elim (clear_slot-cases i buf map_id s j) [
        | inl old ↦ inl (same ∙ old)
        | inr gone ↦ inr (same ∙ gone)
      ]
    ]
