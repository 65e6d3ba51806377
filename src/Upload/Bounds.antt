-- ===== src/Upload/Bounds.antt =====
-- The range of `mapped_index_bounds` in include/gles_util_stub.h, and the vertices of a draw.
use webos_bridge_64to.Common.{
  ℕ, zero, suc, ◌+◌, ◌≤◌, ◌<◌, ◌≡◌, Bool, true, false, ◌&&◌, none, some, ◌==◌, arith, ◌⊎◌, inl, inr,
  Option-cases, Bool-cases, ap, sym,
}
use native.Mathlib.Decide.{ℕ_discrete}
use webos_bridge_64to.Upload.Indices.{
  bias, restart_index, index_at, Range, widen, scan, clip, mapped_index_bounds,
}

-- The draw uses index `j`, with this value: it is no separator of strips.
pub record IsDrawn (type : ℕ) (restart : Bool) (idx : ℕ → ℕ) (j raw : ℕ) : Type 0 where
  pub read : index_at type idx j ≡ some raw
  pub vertex : (restart && raw == restart_index type) ≡ false

abbrev pub IsIn : ℕ → Range → Type 0
IsIn v none = ⊥
IsIn v (some (lo, hi)) = (lo ≤ v) × (v ≤ hi)

widen-IsIn : (v : ℕ) (r : Range) → IsIn v (widen v r)
unfolding widen
widen-IsIn v none = ground arith
widen-IsIn v (some (lo, hi)) = ground arith

widen-keeps : (u v : ℕ) (r : Range) → IsIn u r → IsIn u (widen v r)
unfolding widen
widen-keeps u v none h = absurd h
widen-keeps u v (some (lo, hi)) h = ground arith

-- One round of the loop that goes on: what it has read, and whether it counts.
pub scan_next :
    (n i type base : ℕ) (restart : Bool) (idx : ℕ → ℕ) (r s : Range)
    → scan (suc n) i type base restart idx r ≡ some s
    → (raw : ℕ) × (index_at type idx i ≡ some raw)
      × ((((restart && raw == restart_index type) ≡ true)
            × (scan n (i + 1) type base restart idx r ≡ some s))
          ⊎ (((restart && raw == restart_index type) ≡ false)
              × (scan n (i + 1) type base restart idx (widen (raw + base) r) ≡ some s)))
unfolding scan
scan_next n i type base restart idx r s e = elim (Option-cases (index_at type idx i)) [
  | inl bad ↦ absurd (ground (arith, e, bad))
  | inr (raw, at) ↦ elim (Bool-cases (restart && raw == restart_index type)) [
    | inl yes' ↦ (raw, at, inl (yes', ground (arith, e, at, yes')))
    | inr no' ↦ (raw, at, inr (no', ground (arith, e, at, no')))
  ]
]

scan_end :
    (i type base : ℕ) (restart : Bool) (idx : ℕ → ℕ) (r s : Range) (u : ℕ)
    → scan 0 i type base restart idx r ≡ some s
    → IsIn u r
    → IsIn u s
unfolding scan
scan_end i type base restart idx none s u e h = absurd h
scan_end i type base restart idx (some (lo, hi)) none u e h = absurd (ground (arith, e))
scan_end i type base restart idx (some (lo, hi)) (some (lo', hi')) u e h = ground (arith, e, h)

-- What is in the range stays in it, and every index that the loop passes comes into it.
scan-keeps :
    (n i type base : ℕ) (restart : Bool) (idx : ℕ → ℕ) (r s : Range) (u : ℕ)
    → scan n i type base restart idx r ≡ some s
    → IsIn u r
    → IsIn u s
scan-keeps zero i type base restart idx r s u e h = scan_end i type base restart idx r s u e h
scan-keeps (suc n) i type base restart idx r s u e h =
    let (raw, at, rest) = scan_next n i type base restart idx r s e in
    elim rest [
      | inl skipped ↦ scan-keeps n (i + 1) type base restart idx r s u (skipped.1) h
      | inr counted ↦
          scan-keeps n (i + 1) type base restart idx (widen (raw + base) r) s u (counted.1)
            (widen-keeps u (raw + base) r h)
    ]

scan-covers :
    (n i type base : ℕ) (restart : Bool) (idx : ℕ → ℕ) (r s : Range) (j raw : ℕ)
    → scan n i type base restart idx r ≡ some s
    → i ≤ j
    → j < i + n
    → IsDrawn type restart idx j raw
    → IsIn (raw + base) s
scan-covers zero i type base restart idx r s j raw e lo hi drawn = absurd (omega arith)
scan-covers (suc n) i type base restart idx r s j raw e lo hi drawn =
    let (here, at, rest) = scan_next n i type base restart idx r s e in
    elim (ℕ_discrete i j) [
      | yes same ↦
          let equal : here ≡ raw = ground (arith, at, drawn.read, same) in
          elim rest [
            | inl skipped ↦ absurd (ground (arith, skipped.0, drawn.vertex, equal))
            | inr counted ↦
                let v = ap (λ (t : ℕ). t + base) equal in
                scan-keeps n (i + 1) type base restart idx (widen (here + base) r) s (raw + base)
                  (counted.1) (rw (sym v) (widen-IsIn (here + base) r))
          ]
      | no other ↦ elim rest [
        | inl skipped ↦
            scan-covers n (i + 1) type base restart idx r s j raw (skipped.1) (omega (arith, other))
              (omega arith) drawn
        | inr counted ↦
            scan-covers n (i + 1) type base restart idx (widen (here + base) r) s j raw (counted.1)
              (omega (arith, other)) (omega arith) drawn
      ]
    ]

clip_lem :
    (r : Range) (lo hi v : ℕ)
    → clip r ≡ some (lo, hi)
    → IsIn v r
    → (v ≤ hi + bias) × (bias ≤ v → lo + bias ≤ v)
unfolding clip
clip_lem none lo hi v e h = absurd h
clip_lem (some (a, b)) lo hi v e h = ground (arith, e, h)

-- When `mapped_index_bounds` returns a range, each vertex of the draw (index `j` below `count`, no separator of
-- strips) is at most its upper end, and is at least its lower end unless it is negative.
pub bounds_cover_draw :
    (idx : ℕ → ℕ) (count type base : ℕ) (restart : Bool) (lo hi j raw : ℕ)
    → mapped_index_bounds (some idx) count type base restart ≡ some (lo, hi)
    → j < count
    → IsDrawn type restart idx j raw
    → (raw + base ≤ hi + bias) × (bias ≤ raw + base → lo + bias ≤ raw + base)
unfolding mapped_index_bounds
bounds_cover_draw idx count type base restart lo hi j raw e lt drawn =
    elim (Option-cases (scan count 0 type base restart idx none)) [
      | inl bad ↦ absurd (ground (arith, e, bad))
      | inr (s, scanned) ↦ clip_lem s lo hi (raw + base) (ground (arith, e, scanned)) (
          scan-covers count 0 type base restart idx none s j raw scanned (omega arith) (omega arith)
            drawn)
    ]
