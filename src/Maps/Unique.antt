-- ===== src/Maps/Unique.antt =====
-- A buffer has one map at most, whatever the program calls.
use webos_bridge_64to.Common.{
  ℕ, zero, suc, ◌+◌, Bool, refl, ◌∙◌, ◌&&◌, leb, ltb, ◌≤◌, ◌<◌, ◌≡◌, ◌≢◌, sym, ◌⊎◌, inl, inr, true,
  false, List, [], ◌∷◌, arith, ℕ_discrete, ap, Option-cases,
}
use webos_bridge_64to.Maps.State.{
  StubMaps, clear_from, clear_slot, delete_buffer_maps, delete_maps, first_map, gl_map_buffer_range,
  gl_unmap_buffer, is_same_map, max_maps, take_slot,
}
use webos_bridge_64to.Maps.Cleared.{clear_from-cases, clear_from-clears}

-- A live map knows its own slot, and no other slot has its buffer.
pub record IsTracked (s : StubMaps) : Type 0 where
  pub named : (i : ℕ) → i < max_maps → (s.maps i).live ≡ true → (s.maps i).id ≡ i
  pub alone :
      (i j : ℕ)
      → 1 ≤ i
      → i < max_maps
      → 1 ≤ j
      → j < max_maps
      → (s.maps i).live ≡ true
      → (s.maps j).live ≡ true
      → (s.maps i).buffer ≡ (s.maps j).buffer
      → i ≡ j

-- Slots that are as before, or not live, keep it.
pub fewer-IsTracked :
    (s s' : StubMaps)
    → ((i : ℕ) → (s'.maps i ≡ s.maps i) ⊎ ((s'.maps i).live ≡ false))
    → IsTracked s
    → IsTracked s'
fewer-IsTracked s s' old h = record {
  named = λ i below live. elim (old i) [
    | inr gone ↦ ground arith
    | inl same ↦ ground (arith, h.named i below (rw (sym same) live))
  ];
  alone = λ i j i1 i2 j1 j2 live_i live_j e. elim (old i) [
    | inr gone ↦ ground arith
    | inl same_i ↦ elim (old j) [
      | inr gone ↦ ground arith
      | inl same_j ↦
          h.alone i j i1 i2 j1 j2 (rw (sym same_i) live_i) (rw (sym same_j) live_j)
            (rw (sym same_i, sym same_j) e)
    ]
  ];
}

pub unmap-cases :
    (buf : ℕ) (s : StubMaps) (i : ℕ)
    → ((gl_unmap_buffer buf s).maps i ≡ s.maps i) ⊎ (((gl_unmap_buffer buf s).maps i).live ≡ false)
unfolding gl_unmap_buffer
unmap-cases buf s i = ground arith

delete-cases :
    (b : ℕ) (s : StubMaps) (i : ℕ)
    → ((delete_maps b s).maps i ≡ s.maps i) ⊎ (((delete_maps b s).maps i).live ≡ false)
unfolding delete_maps
delete-cases b s i = ground arith

pub delete_all-IsTracked :
    (names : List ℕ) (s : StubMaps) → IsTracked s → IsTracked (delete_buffer_maps names s)
unfolding delete_buffer_maps
delete_all-IsTracked [] s h = h
delete_all-IsTracked (b ∷ more) s h =
    delete_all-IsTracked more (delete_maps b s)
      (fewer-IsTracked s (delete_maps b s) (delete-cases b s) h)

-- The slot of the new map holds it.
take-IsTracked :
    (map_id buf target offset length access : ℕ) (c : StubMaps)
    → ((j : ℕ)
        → 1 ≤ j
        → j < max_maps
        → j ≢ map_id
        → (c.maps j).live ≡ true
        → (c.maps j).buffer ≢ buf)
    → IsTracked c
    → IsTracked (take_slot map_id buf target offset length access c)
unfolding take_slot
take-IsTracked map_id buf target offset length access c others h = record {
  named = λ i i2 live. elim (ℕ_discrete map_id i) [
    | yes here ↦ ground arith
    | no there ↦ ground (arith, h.named i i2)
  ];
  alone = λ i j i1 i2 j1 j2 live_i live_j e. elim (ℕ_discrete map_id i) [
    | yes here ↦ elim (ℕ_discrete map_id j) [
      | yes here' ↦ omega arith
      | no there' ↦ ground (arith, others j j1 j2)
    ]
    | no there ↦ elim (ℕ_discrete map_id j) [
      | yes here' ↦ ground (arith, others i i1 i2)
      | no there' ↦ ground (arith, h.alone i j i1 i2 j1 j2)
    ]
  ];
}

pub cleared-cases :
    (buf map_id : ℕ) (s : StubMaps) (i : ℕ)
    → ((clear_from 63 1 buf map_id s).maps i ≡ s.maps i)
      ⊎ (((clear_from 63 1 buf map_id s).maps i).live ≡ false)
cleared-cases buf map_id s i = elim (clear_from-cases 63 1 buf map_id s i) [
  | inl same ↦ inl same
  | inr gone ↦ inr (ap (λ m. m.live) gone)
]

-- The loop leaves no other map of the buffer.
pub cleared-others :
    (buf map_id : ℕ) (s : StubMaps) (j : ℕ)
    → 1 ≤ j
    → j < max_maps
    → j ≢ map_id
    → ((clear_from 63 1 buf map_id s).maps j).live ≡ true
    → ((clear_from 63 1 buf map_id s).maps j).buffer ≢ buf
cleared-others buf map_id s j j1 j2 ne live e =
    ground (arith, clear_from-clears 63 1 buf map_id s j j1 (omega arith))

pub map-IsTracked :
    (map_id buf target offset length access : ℕ) (s : StubMaps)
    → map_id < max_maps
    → IsTracked s
    → IsTracked (gl_map_buffer_range map_id buf target offset length access s).1
unfolding gl_map_buffer_range
map-IsTracked map_id buf target offset length access s below h =
    let cleared : StubMaps = clear_from 63 1 buf map_id s in
    let taken : IsTracked (take_slot map_id buf target offset length access cleared) =
      take-IsTracked map_id buf target offset length access cleared (cleared-others buf map_id s)
        (fewer-IsTracked s cleared (cleared-cases buf map_id s) h) in
    elim (Option-cases (first_map (is_same_map buf target offset length access) s)) [
      | inl fresh ↦
          let inside : leb max_maps map_id ≡ false = ground arith in
          rw (fresh, gl_map_buffer_range, inside)
            (elim (ℕ_discrete map_id 0) [ yes zero_id ↦ ground arith | no ne ↦ ground arith ])
      | inr (i, found) ↦ rw (found, gl_map_buffer_range) h
    ]

-- A call of the program. The proxy's answer to `glMapBufferRange` is `map_id`.
pub data MapOp : Type 0 where
  map_range : (map_id buf target offset length access : ℕ) → MapOp
  unmap : (buf : ℕ) → MapOp
  delete : (names : List ℕ) → MapOp

unfoldable pub map_step : StubMaps → MapOp → StubMaps
map_step s (map_range map_id buf target offset length access) =
    (gl_map_buffer_range map_id buf target offset length access s).1
map_step s (unmap buf) = gl_unmap_buffer buf s
map_step s (delete names) = delete_buffer_maps names s

unfoldable pub map_run : List MapOp → StubMaps → StubMaps
map_run [] s = s
map_run (op ∷ more) s = map_run more (map_step s op)

-- Each answer of the proxy to `glMapBufferRange` is a slot of the table, or 0.
unfoldable pub answers_inside : List MapOp → Bool
answers_inside [] = true
answers_inside (map_range map_id buf target offset length access ∷ more) =
    ltb map_id max_maps && answers_inside more
answers_inside (unmap buf ∷ more) = answers_inside more
answers_inside (delete names ∷ more) = answers_inside more

clear-overrun :
    (n i buf map_id : ℕ) (s : StubMaps) → (clear_from n i buf map_id s).overrun ≡ s.overrun
unfolding clear_from clear_slot
clear-overrun zero i buf map_id s = refl
clear-overrun (suc n) i buf map_id s =
    clear-overrun n (i + 1) buf map_id (clear_slot i buf map_id s) ∙ ground arith

delete_all-overrun :
    (names : List ℕ) (s : StubMaps) → (delete_buffer_maps names s).overrun ≡ s.overrun
unfolding delete_buffer_maps delete_maps
delete_all-overrun [] s = refl
delete_all-overrun (b ∷ more) s = delete_all-overrun more (delete_maps b s)

unmap-overrun : (buf : ℕ) (s : StubMaps) → (gl_unmap_buffer buf s).overrun ≡ s.overrun
unfolding gl_unmap_buffer
unmap-overrun buf s = ground arith

map-overrun :
    (map_id buf target offset length access : ℕ) (s : StubMaps)
    → map_id < max_maps
    → (gl_map_buffer_range map_id buf target offset length access s).1.overrun ≡ s.overrun
unfolding gl_map_buffer_range take_slot
map-overrun map_id buf target offset length access s below =
    let kept = clear-overrun 63 1 buf map_id s in
    let inside : leb max_maps map_id ≡ false = ground arith in
    elim (Option-cases (first_map (is_same_map buf target offset length access) s)) [
      | inr (i, found) ↦ rw (found, gl_map_buffer_range) refl
      | inl fresh ↦
          rw (fresh, gl_map_buffer_range, inside)
            (elim (ℕ_discrete map_id 0) [
              | yes zero_id ↦ ground arith
              | no ne ↦ ground (arith, kept)
            ])
    ]

-- While the proxy answers `glMapBufferRange` with numbers below 64, whatever the program maps, unmaps and deletes:
-- if each live map of the stub knows its own slot, and no two of the slots 1 to 63 hold live maps of one buffer, then
-- that is so afterwards, and none of the calls has stored past the end of `stub_maps`.
pub one_map_per_buffer :
    (ops : List MapOp) (s : StubMaps)
    → answers_inside ops ≡ true
    → IsTracked s
    → IsTracked (map_run ops s) × ((map_run ops s).overrun ≡ s.overrun)
unfolding map_run map_step answers_inside
one_map_per_buffer [] s inside h = (h, refl)
one_map_per_buffer (map_range map_id buf target offset length access ∷ more) s inside h =
    let below : map_id < max_maps = ground arith in
    let (tracked, kept) =
      one_map_per_buffer more (gl_map_buffer_range map_id buf target offset length access s).1
        (ground arith) (map-IsTracked map_id buf target offset length access s below h) in
    (tracked, kept ∙ map-overrun map_id buf target offset length access s below)
one_map_per_buffer (unmap buf ∷ more) s inside h =
    let (tracked, kept) =
      one_map_per_buffer more (gl_unmap_buffer buf s) inside
        (fewer-IsTracked s (gl_unmap_buffer buf s) (unmap-cases buf s) h) in
    (tracked, kept ∙ unmap-overrun buf s)
one_map_per_buffer (delete names ∷ more) s inside h =
    let (tracked, kept) =
      one_map_per_buffer more (delete_buffer_maps names s) inside
        (delete_all-IsTracked names s h) in
    (tracked, kept ∙ delete_all-overrun names s)
