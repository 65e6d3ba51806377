-- ===== src/Maps/Mirrored.antt =====
-- That the proxy has every map of the stub, in the same slot.
use webos_bridge_64to.Common.{
  ℕ, ◌^◌, leb, ◌≤◌, ◌<◌, ◌≡◌, ◌≢◌, refl, sym, ◌∙◌, inl, inr, true, false, List, [], ◌∷◌, none,
  arith, ◌==◌, ℕ_discrete, Option-cases,
}
use webos_bridge_64to.Maps.State.{
  StubMapEntry, StubMaps, clear_from, delete_buffer_maps, delete_maps, first_map,
  gl_map_buffer_range, gl_unmap_buffer, is_of, is_same_map, max_maps, take_slot,
}
use webos_bridge_64to.Maps.Cleared.{first_from-some}
use webos_bridge_64to.Maps.Proxy.{
  MapEntry, drop_buffer, h_gl_delete_buffers, h_gl_map_buffer_range, h_gl_unmap_buffer, narrow,
}
use webos_bridge_64to.Maps.Allocated.{entry_of, handler-rest, handler-takes}
use webos_bridge_64to.Maps.Unique.{cleared-cases, cleared-others, map-IsTracked}
use webos_bridge_64to.Maps.Sides.{IsImage, IsMirrored, Sides, map_sides, unmap_id, unmap_sides}

-- An entry of the stub and one of the proxy that are as before.
same-IsImage :
    (m m' : StubMapEntry) (e e' : MapEntry) → m' ≡ m → e' ≡ e → IsImage m e → IsImage m' e'
same-IsImage m m' e e' p q h = rw (p, q) h

delete-IsImage :
    (b : ℕ) (s : StubMaps) (maps : ℕ → MapEntry) (i : ℕ)
    → ((s.maps i).live ≡ true → IsImage (s.maps i) (maps i))
    → 1 ≤ i
    → i < max_maps
    → ((delete_maps b s).maps i).live ≡ true
    → IsImage ((delete_maps b s).maps i) (drop_buffer b maps i)
unfolding delete_maps drop_buffer
delete-IsImage b s maps i h i1 i2 live =
    let was_live : (s.maps i).live ≡ true = ground arith in
    let other : (s.maps i).buffer ≢ b = ground arith in
    let image : IsImage (s.maps i) (maps i) = h was_live in
    let other' : (maps i).buffer ≢ b = λ e. other (sym image.buffer ∙ e) in
    same-IsImage (s.maps i) ((delete_maps b s).maps i) (maps i) (drop_buffer b maps i)
      (ground arith) (ground arith) image

pub delete_all-IsImage :
    (names : List ℕ) (s : StubMaps) (maps : ℕ → MapEntry)
    → ((i : ℕ) → 1 ≤ i → i < max_maps → (s.maps i).live ≡ true → IsImage (s.maps i) (maps i))
    → (i : ℕ) → 1 ≤ i
    → i < max_maps
    → ((delete_buffer_maps names s).maps i).live ≡ true
    → IsImage ((delete_buffer_maps names s).maps i) (h_gl_delete_buffers names maps i)
unfolding delete_buffer_maps h_gl_delete_buffers
delete_all-IsImage [] s maps h = h
delete_all-IsImage (b ∷ more) s maps h =
    delete_all-IsImage more (delete_maps b s) (drop_buffer b maps)
      (λ i i1 i2. delete-IsImage b s maps i (h i i1 i2) i1 i2)

pub unmap-IsImage :
    (buf : ℕ) (s : Sides) (i : ℕ)
    → IsMirrored s
    → 1 ≤ i
    → i < max_maps
    → ((unmap_sides buf s).stub.maps i).live ≡ true
    → IsImage ((unmap_sides buf s).stub.maps i) ((unmap_sides buf s).proxy i)
unfolding unmap_sides unmap_id gl_unmap_buffer h_gl_unmap_buffer
unmap-IsImage buf s i h i1 i2 = elim (Option-cases (first_map (is_of buf) s.stub)) [
  | inl nothing ↦ rw (nothing, gl_unmap_buffer, unmap_id) (λ live. h.image i i1 i2 live)
  | inr (k, found) ↦
      let at_k = first_from-some (is_of buf) 63 1 s.stub.maps k found in
      let named : (s.stub.maps k).id ≡ k = h.tracked.named k (omega arith) (ground arith) in
      elim (ℕ_discrete k i) [
        | yes here ↦ rw (found, gl_unmap_buffer, unmap_id) (λ live. absurd (ground arith))
        | no there ↦
            rw (found, gl_unmap_buffer, unmap_id, named)
              (λ live.
                same-IsImage (s.stub.maps i) _ (s.proxy i) _ (ground arith) (ground arith)
                  (h.image i i1 i2 (ground arith)))
      ]
]

take-IsImage :
    (a buf target offset length access : ℕ) (c : StubMaps) (maps : ℕ → MapEntry)
    → maps a ≡ entry_of target offset length access buf
    → ((i : ℕ)
        → 1 ≤ i
        → i < max_maps
        → i ≢ a
        → (c.maps i).live ≡ true
        → IsImage (c.maps i) (maps i))
    → (i : ℕ) → 1 ≤ i
    → i < max_maps
    → ((take_slot a buf target offset length access c).maps i).live ≡ true
    → IsImage ((take_slot a buf target offset length access c).maps i) (maps i)
unfolding take_slot
take-IsImage a buf target offset length access c maps new old i i1 i2 live = elim (ℕ_discrete a i) [
  | yes here ↦
      let new_i : maps i ≡ entry_of target offset length access buf = rw (sym here) new in
      rw new_i (record {
        real = refl;
        length = ground arith;
        target = ground arith;
        offset = ground arith;
        buffer = ground arith;
        access = ground arith;
      })
  | no there ↦
      same-IsImage (c.maps i) ((take_slot a buf target offset length access c).maps i) (maps i)
        (maps i) (ground arith) refl (old i i1 i2 (λ e. there (sym e)) (ground arith))
]

-- The stub's other live maps, once the maps of the buffer are cleared, stay in the proxy.
rest-IsImage :
    (buf target offset length access : ℕ) (s : Sides) (i : ℕ)
    → let r = h_gl_map_buffer_range true target offset length access buf s.proxy in
      IsMirrored s
      → 1 ≤ i
      → i < max_maps
      → i ≢ r.0
      → ((clear_from 63 1 buf r.0 s.stub).maps i).live ≡ true
      → IsImage ((clear_from 63 1 buf r.0 s.stub).maps i) (r.1 i)
rest-IsImage buf target offset length access s i h i1 i2 ne live =
    let a : ℕ = (h_gl_map_buffer_range true target offset length access buf s.proxy).0 in
    let other : ((clear_from 63 1 buf a s.stub).maps i).buffer ≢ buf =
      cleared-others buf a s.stub i i1 i2 ne live in
    elim (cleared-cases buf a s.stub i) [
      | inr gone ↦ absurd (ground arith)
      | inl same ↦
          let image : IsImage (s.stub.maps i) (s.proxy i) =
            h.image i i1 i2 ((λ k. (sym same k).live) ∙ live) in
          elim (handler-rest target offset length access buf s.proxy i ne i1 i2) [
            | inl kept ↦ same-IsImage (s.stub.maps i) _ (s.proxy i) _ same kept image
            | inr dropped ↦ absurd (other ((λ k. (same k).buffer) ∙ sym image.buffer ∙ dropped.1))
          ]
    ]

-- The proxy's 32 bits hold small numbers.
entry_of-narrow :
    (target offset length access buffer : ℕ)
    → offset < 2 ^ 31
    → length < 2 ^ 31
    → entry_of target (narrow offset) (narrow length) access buffer
      ≡ entry_of target offset length access buffer
entry_of-narrow target offset length access buffer small short =
    let o : narrow offset ≡ offset = omega arith in
    let l : narrow length ≡ length = omega arith in λ k. entry_of target (o k) (l k) access buffer

pub answer_small :
    (target offset length access buffer : ℕ) (maps : ℕ → MapEntry)
    → (h_gl_map_buffer_range true target offset length access buffer maps).0 < max_maps
answer_small target offset length access buffer maps =
    elim (ℕ_discrete (h_gl_map_buffer_range true target offset length access buffer maps).0 0) [
      | yes none_free ↦ omega arith
      | no ne ↦ (handler-takes target offset length access buffer maps ne).1.0
    ]

fresh-IsImage :
    (buf target offset length access : ℕ) (s : Sides)
    → offset < 2 ^ 31
    → length < 2 ^ 31
    → IsMirrored s
    → first_map (is_same_map buf target offset length access) s.stub ≡ none
    → let r = h_gl_map_buffer_range true target offset length access buf s.proxy in
      (i : ℕ)
      → 1 ≤ i
      → i < max_maps
      → ((gl_map_buffer_range r.0 buf target offset length access s.stub).1.maps i).live ≡ true
      → IsImage ((gl_map_buffer_range r.0 buf target offset length access s.stub).1.maps i) (r.1 i)
unfolding gl_map_buffer_range
fresh-IsImage buf target offset length access s small short h fresh i i1 i2 =
    let a : ℕ = (h_gl_map_buffer_range true target offset length access buf s.proxy).0 in
    let maps : ℕ → MapEntry =
      (h_gl_map_buffer_range true target offset length access buf s.proxy).1 in
    elim (ℕ_discrete a 0) [
      | yes full ↦
          rw (fresh, gl_map_buffer_range, full)
            (λ live.
              elim (handler-rest target offset length access buf s.proxy i
                (λ e. absurd (omega arith)) i1 i2) [
                  | inl kept ↦
                      same-IsImage (s.stub.maps i) _ (s.proxy i) _ refl kept (h.image i i1 i2 live)
                  | inr dropped ↦ absurd (dropped.0 full)
                ])
      | no ne ↦
          let not_zero : a == 0 ≡ false = ground arith in
          let took = handler-takes target offset length access buf s.proxy ne in
          let inside : leb max_maps a ≡ false = ground (arith, took.1.0) in
          let entry : maps a ≡ entry_of target offset length access buf =
            took.1.1 ∙ entry_of-narrow target offset length access buf small short in
          rw (fresh, gl_map_buffer_range, not_zero, inside)
            (take-IsImage a buf target offset length access (clear_from 63 1 buf a s.stub) maps
              entry
              (λ j j1 j2 other live.
                rest-IsImage buf target offset length access s j h j1 j2 other live)
              i i1 i2)
    ]

pub map-IsMirrored :
    (buf target offset length access : ℕ) (s : Sides)
    → offset < 2 ^ 31
    → length < 2 ^ 31
    → IsMirrored s
    → IsMirrored (map_sides true buf target offset length access s).1
unfolding map_sides
map-IsMirrored buf target offset length access s small short h =
    let r : ℕ × (ℕ → MapEntry) =
      h_gl_map_buffer_range true target offset length access buf s.proxy in
    elim (Option-cases (first_map (is_same_map buf target offset length access) s.stub)) [
      | inr (i, found) ↦ rw (found, map_sides) h
      | inl fresh ↦
          let next : IsMirrored (record {
            stub = (gl_map_buffer_range r.0 buf target offset length access s.stub).1;
            proxy = r.1;
          }) =
            record {
              tracked =
                  map-IsTracked r.0 buf target offset length access s.stub
                    (answer_small target offset length access buf s.proxy) h.tracked;
              image = fresh-IsImage buf target offset length access s small short h fresh;
            } in
          rw (fresh, map_sides) next
    ]
