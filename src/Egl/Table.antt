-- ===== src/Egl/Table.antt =====
-- proxy/protocol/egl.c: one handle table. `TABLE_ALLOC`, `TABLE_FREE`, the bounded look-up of `DISP`,
-- `CFG`, `CTX` and `SURF`, and the search for a handle. A handle of 0 is NULL.
use webos_bridge_64to.Common.{ℕ, zero, suc, ◌+◌, leb, ◌==◌, if◌then◌else◌, update}

pub record EglHandleEntry : Type 0 where
  pub handle : ℕ
  pub owner_pid : ℕ
  pub initialized : ℕ
  pub major : ℕ
  pub minor : ℕ

abbrev pub Table : Type 0
Table = ℕ → EglHandleEntry

-- The first of `n` indices from `i` on whose entry has the given handle; 0 if none has.
unfoldable pub find_handle : ℕ → ℕ → ℕ → Table → ℕ
find_handle zero i real t = 0
find_handle (suc n) i real t =
    let rest = find_handle n (i + 1) real t in if (t i).handle == real then i else rest

-- `TABLE_ALLOC`: the index, 0 if the table is full, and the table.
unfoldable pub table_alloc : ℕ → ℕ → ℕ → Table → ℕ × Table
table_alloc max real pid t =
    let idx = find_handle max 1 0 t in
    (idx, if idx == 0 then t else update t idx (record (t idx) { handle = real; owner_pid = pid }))

-- `TABLE_FREE`
unfoldable pub table_free : ℕ → Table → Table
table_free idx t = update t idx (record (t idx) { handle = 0; owner_pid = 0 })

unfoldable pub set_owner : ℕ → ℕ → Table → Table
set_owner idx pid t = update t idx (record (t idx) { owner_pid = pid })

-- `table[i <= max ? i : 0].handle`
unfoldable pub handle_at : ℕ → Table → ℕ → ℕ
handle_at max t i = (t (if leb i max then i else 0)).handle
