-- ===== src/Upload/Tight.antt =====
-- The ends of the range of `mapped_index_bounds` in include/gles_util_stub.h.
use webos_bridge_64to.Common.{
  ℕ, zero, suc, ◌+◌, ◌≤◌, ◌<◌, ◌≡◌, Bool, true, false, none, some, ltb, if◌then◌else◌, arith, refl,
  ◌⊎◌, inl, inr, Option-cases,
}
use mathlib.Core.Path.{subst}
use mathlib.Core.Option.{some-injective}
use native.Mathlib.Decide.{dec_lt}
use webos_bridge_64to.Upload.Indices.{bias, Range, widen, scan, clip, mapped_index_bounds}
use webos_bridge_64to.Upload.Bounds.{IsDrawn, scan_next}

-- A vertex of the draw, counted from -2 ^ 31 on.
abbrev pub IsUsed : (idx : ℕ → ℕ) (count type base : ℕ) → Bool → ℕ → Type 0
IsUsed idx count type base restart v =
    (j : ℕ) × (raw : ℕ) × (j < count) × IsDrawn type restart idx j raw × (raw + base ≡ v)

module _ (P : ℕ → Type 0) where
  AllEnds : Range → Type 0
  AllEnds none = Unit
  AllEnds (some (lo, hi)) = P lo × P hi

  pick : (b : Bool) {x y : ℕ} → P x → P y → P (if b then x else y)
  pick true p q = p
  pick false p q = q

  widen-AllEnds : (v : ℕ) (r : Range) → P v → AllEnds r → AllEnds (widen v r)
  unfolding widen AllEnds
  widen-AllEnds v none p h = (p, p)
  widen-AllEnds v (some (lo, hi)) p (a, b) = (pick (ltb v lo) p a, pick (ltb hi v) p b)

  scan-AllEnds :
      (n i type base : ℕ) (restart : Bool) (idx : ℕ → ℕ) (r s : Range)
      → scan n i type base restart idx r ≡ some s
      → ((j raw : ℕ) → i ≤ j → j < i + n → IsDrawn type restart idx j raw → P (raw + base))
      → AllEnds r
      → AllEnds s
  unfolding scan
  scan-AllEnds zero i type base restart idx r s e used h = subst AllEnds (some-injective r s e) h
  scan-AllEnds (suc n) i type base restart idx r s e used h =
      let (raw, at, rest) = scan_next n i type base restart idx r s e in
      elim rest [
        | inl skipped ↦
            scan-AllEnds n (i + 1) type base restart idx r s (skipped.1)
              (λ j raw' lo hi drawn. used j raw' (omega (arith, lo)) (omega (arith, hi)) drawn) h
        | inr counted ↦
            scan-AllEnds n (i + 1) type base restart idx (widen (raw + base) r) s (counted.1)
              (λ j raw' lo hi drawn. used j raw' (omega (arith, lo)) (omega (arith, hi)) drawn)
              (widen-AllEnds (raw + base) r
                (used i raw (omega arith) (omega arith) (record { read = at; vertex = counted.0 }))
                h)
      ]

  clip-AllEnds :
      (r : Range) (lo hi : ℕ)
      → clip r ≡ some (lo, hi)
      → AllEnds r
      → P (hi + bias) × ((lo ≡ 0) ⊎ P (lo + bias))
  unfolding clip AllEnds
  clip-AllEnds none lo hi e h = absurd (ground (arith, e))
  clip-AllEnds (some (a, b)) lo hi e h =
      let upper : b ≡ hi + bias = ground (arith, e) in
      (
        subst P upper h.1,
        elim (dec_lt a bias) [
          | yes negative ↦ inl (ground (arith, e, negative))
          | no kept ↦ let lower : a ≡ lo + bias = ground (arith, e, kept) in inr (subst P lower h.0)
        ],
      )

-- When `mapped_index_bounds` returns a range, its upper end is a vertex of the draw, and so is its lower end,
-- unless that is 0.
pub bounds_are_drawn :
    (idx : ℕ → ℕ) (count type base : ℕ) (restart : Bool) (lo hi : ℕ)
    → mapped_index_bounds (some idx) count type base restart ≡ some (lo, hi)
    → IsUsed idx count type base restart (hi + bias)
      × ((lo ≡ 0) ⊎ IsUsed idx count type base restart (lo + bias))
unfolding mapped_index_bounds AllEnds
bounds_are_drawn idx count type base restart lo hi e =
    elim (Option-cases (scan count 0 type base restart idx none)) [
      | inl bad ↦ absurd (ground (arith, e, bad))
      | inr (s, scanned) ↦
          clip-AllEnds (IsUsed idx count type base restart) s lo hi (ground (arith, e, scanned)) (
            scan-AllEnds (IsUsed idx count type base restart) count 0 type base restart idx none s
              scanned (λ j raw low high drawn. (j, raw, omega (arith, high), drawn, refl)) tt)
    ]
