-- ===== src/Maps/Allocated.antt =====
-- What the proxy's handler of `glMapBufferRange` changes.
use webos_bridge_64to.Common.{
  ℕ, ◌≤◌, ◌<◌, ◌≡◌, ◌≢◌, refl, ◌∙◌, ◌⊎◌, inl, inr, true, false, arith, ℕ_discrete, Option-cases,
}
use webos_bridge_64to.Maps.State.{first_from, max_maps}
use webos_bridge_64to.Maps.Cleared.{first_from-none, first_from-some}
use webos_bridge_64to.Maps.Proxy.{
  MapEntry, alloc_map, drop_stale, h_gl_map_buffer_range, is_free, is_stale, narrow, set_offset,
}

drop-cases :
    (buffer target : ℕ) (maps : ℕ → MapEntry) (j : ℕ)
    → 1 ≤ j
    → j < max_maps
    → (drop_stale buffer target maps j ≡ maps j)
      ⊎ (((maps j).real ≡ true)
          × (((maps j).buffer ≡ buffer) × ((drop_stale buffer target maps j).real ≡ false)))
unfolding drop_stale
drop-cases buffer target maps j j1 j2 =
    elim (Option-cases (first_from (is_stale buffer target) 63 1 maps)) [
      | inl nothing ↦ inl (rw (nothing, drop_stale) refl)
      | inr (i, found) ↦
          let at_i = first_from-some (is_stale buffer target) 63 1 maps i found in
          elim (ℕ_discrete i j) [
            | yes here ↦ inr (rw (found, drop_stale) (ground arith))
            | no there ↦ inl (rw (found, drop_stale) (ground arith))
          ]
    ]

alloc-full :
    (length target buffer access : ℕ) (maps : ℕ → MapEntry)
    → (alloc_map length target buffer access maps).0 ≡ 0
    → ((alloc_map length target buffer access maps).1 ≡ maps)
      × ((j : ℕ) → 1 ≤ j → j < max_maps → (maps j).real ≡ true)
unfolding alloc_map
alloc-full length target buffer access maps = elim (Option-cases (first_from is_free 63 1 maps)) [
  | inl nothing ↦
      rw (nothing, alloc_map)
        (λ e. (refl, λ j j1 j2. ground (arith, first_from-none is_free 63 1 maps nothing j j1 j2)))
  | inr (i, found) ↦
      let at_i = first_from-some is_free 63 1 maps i found in
      rw (found, alloc_map) (λ e. absurd (omega arith))
]

-- The entry that `h_glMapBufferRange` makes.
abbrev pub entry_of : ℕ → ℕ → ℕ → ℕ → ℕ → MapEntry
entry_of target offset length access buffer = record {
  real = true;
  shm_offset = 0;
  length = length;
  target = target;
  offset = offset;
  buffer = buffer;
  access = access;
}

alloc-takes :
    (length target buffer access offset : ℕ) (maps : ℕ → MapEntry)
    → (alloc_map length target buffer access maps).0 ≢ 0
    → let r = alloc_map length target buffer access maps in
      (1 ≤ r.0)
      × ((r.0 < max_maps)
          × ((set_offset r.0 offset r.1 r.0 ≡ entry_of target offset length access buffer)
              × ((j : ℕ) → j ≢ r.0 → set_offset r.0 offset r.1 j ≡ maps j)))
unfolding alloc_map set_offset
alloc-takes length target buffer access offset maps =
    elim (Option-cases (first_from is_free 63 1 maps)) [
      | inl nothing ↦ rw (nothing, alloc_map) (λ ne. absurd (ne refl))
      | inr (i, found) ↦
          let at_i = first_from-some is_free 63 1 maps i found in
          rw (found, alloc_map)
            (λ ne. (at_i.0, (omega arith, (ground arith, λ j other. ground arith))))
    ]

-- With memory from the driver, the handler leaves every other slot but that of an old map of the buffer.
pub handler-rest :
    (target offset length access buffer : ℕ) (maps : ℕ → MapEntry) (j : ℕ)
    → let r = h_gl_map_buffer_range true target offset length access buffer maps in
      j ≢ r.0 → 1 ≤ j → j < max_maps → (r.1 j ≡ maps j) ⊎ ((r.0 ≢ 0) × ((maps j).buffer ≡ buffer))
unfolding h_gl_map_buffer_range set_offset
handler-rest target wide_offset wide_length access buffer maps j other j1 j2 =
    let offset : ℕ = narrow wide_offset in
    let length : ℕ = narrow wide_length in
    let d : ℕ → MapEntry = drop_stale buffer target maps in
    elim (ℕ_discrete (alloc_map length target buffer access d).0 0) [
      | yes full ↦
          let nothing = alloc-full length target buffer access d full in
          let same : set_offset (alloc_map length target buffer access d).0 offset
                (alloc_map length target buffer access d).1 j
              ≡ d j =
            (λ k. set_offset (full k) offset (alloc_map length target buffer access d).1 j)
            ∙ (λ k. nothing.0 k j) in
          elim (drop-cases buffer target maps j j1 j2) [
            | inl kept ↦ inl (same ∙ kept)
            | inr dropped ↦
                let on : (d j).real ≡ true = nothing.1 j j1 j2 in
                let off : (d j).real ≡ false = dropped.1.1 in ground arith
          ]
      | no ne ↦
          let taken = alloc-takes length target buffer access offset d ne in
          let same : set_offset (alloc_map length target buffer access d).0 offset
                (alloc_map length target buffer access d).1 j
              ≡ d j =
            taken.1.1.1 j other in
          elim (drop-cases buffer target maps j j1 j2) [
            | inl kept ↦ inl (same ∙ kept)
            | inr dropped ↦ inr (ne, dropped.1.0)
          ]
    ]

-- A slot that it answers holds the map.
pub handler-takes :
    (target offset length access buffer : ℕ) (maps : ℕ → MapEntry)
    → let r = h_gl_map_buffer_range true target offset length access buffer maps in
      r.0 ≢ 0
      → (1 ≤ r.0)
        × ((r.0 < max_maps)
            × (r.1 r.0 ≡ entry_of target (narrow offset) (narrow length) access buffer))
unfolding h_gl_map_buffer_range
handler-takes target offset length access buffer maps ne =
    let taken =
      alloc-takes (narrow length) target buffer access (narrow offset)
        (drop_stale buffer target maps) ne in
    (taken.0, (taken.1.0, taken.1.1.0))
