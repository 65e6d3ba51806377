-- ===== src/Egl/Lookup.antt =====
-- proxy/protocol/egl.c: what an index of a handle table stands for.
use webos_bridge_64to.Common.{ℕ, zero, suc, ◌+◌, ◌≤◌, ◌<◌, ◌≡◌, ◌≢◌, ◌↔◌, arith, refl}
use webos_bridge_64to.Egl.Table.{Table, find_handle, table_alloc, handle_at}

pub find_handle-found :
    (n i real : ℕ) (t : Table)
    → find_handle n i real t ≢ 0
    → (i ≤ find_handle n i real t)
      × (find_handle n i real t < i + n)
      × ((t (find_handle n i real t)).handle ≡ real)
unfolding find_handle
find_handle-found zero i real t h = absurd (h refl)
find_handle-found (suc n) i real t h = ground (arith, find_handle-found n (i + 1) real t)

pub find_handle-missed :
    (n i real : ℕ) (t : Table)
    → 0 < i
    → find_handle n i real t ≡ 0
    → (j : ℕ) → i ≤ j
    → j < i + n
    → (t j).handle ≢ real
unfolding find_handle
find_handle-missed zero i real t pos h j lo hi = absurd (omega arith)
find_handle-missed (suc n) i real t pos h j lo hi =
    let rest : find_handle n (i + 1) real t ≡ 0 → i + 1 ≤ j → j < i + 1 + n → (t j).handle ≢ real =
      λ e more less. find_handle-missed n (i + 1) real t (omega arith) e j more less in
    ground (arith, rest)

-- `TABLE_ALLOC` on a table with a free entry among the indices 1 to `max`: it returns one of them,
-- which was free, the index stands for the handle from then on, and no other entry changes.
alloc_looks_up :
    (max real pid : ℕ) (t : Table)
    → let (idx, t') = table_alloc max real pid t in
      idx ≢ 0
      → (1 ≤ idx)
        × (idx ≤ max)
        × ((t idx).handle ≡ 0)
        × (handle_at max t' idx ≡ real)
        × ((j : ℕ) → j ≢ idx → t' j ≡ t j)
unfolding table_alloc handle_at
alloc_looks_up max real pid t h =
    let found = find_handle-found max 1 0 t h in
    let at : handle_at max (table_alloc max real pid t).1 (find_handle max 1 0 t) ≡ real =
      ground (arith, found) in
    let other : (j : ℕ) → j ≢ find_handle max 1 0 t → (table_alloc max real pid t).1 j ≡ t j =
      λ j ne. ground arith in
    (found.0, omega (arith, found.1), found.2, at, other)

-- `TABLE_ALLOC` returns 0 exactly when no entry from 1 to `max` is free, and then changes nothing.
alloc_refuses_when_full :
    (max real pid : ℕ) (t : Table)
    → ((table_alloc max real pid t).0 ≡ 0) ↔ ((j : ℕ) → 1 ≤ j → j ≤ max → (t j).handle ≢ 0)
unfolding table_alloc
alloc_refuses_when_full max real pid t = (
  λ e j lo hi. find_handle-missed max 1 0 t (omega arith) e j lo (omega arith),
  λ full. ground (arith, find_handle-found max 1 0 t, full (find_handle max 1 0 t)),
)
