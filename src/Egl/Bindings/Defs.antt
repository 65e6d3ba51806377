-- ===== src/Egl/Bindings/Defs.antt =====
-- The invariant on the tables of proxy/protocol/egl.c, and the operations on one table.
use webos_bridge_64to.Common.{
  ℕ, zero, suc, ◌≤◌, ◌≡◌, ◌≢◌, ◌⊎◌, inl, inr, ◌==◌, if◌then◌else◌, arith, refl,
}
use native.Mathlib.Decide.{dec_lt}
use webos_bridge_64to.Egl.Table.{Table, table_alloc, table_free, set_owner, handle_at}
use webos_bridge_64to.Egl.State.{Egl, CtxBinding, max_surfaces, egl_max_contexts}
use webos_bridge_64to.Egl.Lookup.{find_handle-found}

-- A handle that is NULL, or stands in the table.
abbrev pub IsLive : Table → ℕ → Type 0
IsLive t h = (h ≡ 0) ⊎ ((si : ℕ) × (1 ≤ si) × (si ≤ max_surfaces) × ((t si).handle ≡ h))

abbrev pub AllLive : Table → (ℕ → CtxBinding) → Type 0
AllLive t bindings =
    (i : ℕ) → 1 ≤ i → i ≤ egl_max_contexts → IsLive t (bindings i).draw × IsLive t (bindings i).read

abbrev pub IsNull : Table → Type 0
IsNull t = (t 0).handle ≡ 0

pub record Inv (s : Egl) : Type 0 where
  pub displays : IsNull (s.displays)
  pub configs : IsNull (s.configs)
  pub contexts : IsNull (s.contexts)
  pub surfaces : IsNull (s.surfaces)
  pub live : AllLive (s.surfaces) (s.bindings)

pub IsLive-keep :
    (t t' : Table) (h : ℕ)
    → ((j : ℕ) → (t j).handle ≡ h → h ≢ 0 → (t' j).handle ≡ h)
    → IsLive t h
    → IsLive t' h
IsLive-keep t t' h keep (inl e) = inl e
IsLive-keep t t' zero keep (inr (si, lo, hi, e)) = inl refl
IsLive-keep t t' (suc h) keep (inr (si, lo, hi, e)) = inr (si, lo, hi, keep si e (omega arith))

pub handle_at-IsLive : (t : Table) (i : ℕ) → IsNull t → IsLive t (handle_at max_surfaces t i)
unfolding handle_at
handle_at-IsLive t zero null = inl null
handle_at-IsLive t (suc i) null = elim (dec_lt max_surfaces (suc i)) [
  | yes over ↦ inl (ground arith)
  | no under ↦ inr (suc i, omega arith, omega (arith, under), ground arith)
]

pub table_alloc-keeps :
    (max real pid : ℕ) (t : Table) (j : ℕ)
    → (t j).handle ≢ 0
    → ((table_alloc max real pid t).1 j).handle ≡ (t j).handle
unfolding table_alloc
table_alloc-keeps max real pid t j h = ground (arith, find_handle-found max 1 0 t)

pub table_alloc-IsNull :
    (max real pid : ℕ) (t : Table) → IsNull t → IsNull (table_alloc max real pid t).1
unfolding table_alloc
table_alloc-IsNull max real pid t h = ground (arith, find_handle-found max 1 0 t)

pub set_owner-handle :
    (idx pid : ℕ) (t : Table) (j : ℕ) → (set_owner idx pid t j).handle ≡ (t j).handle
unfolding set_owner
set_owner-handle idx pid t j = ground arith

pub table_free-handle :
    (idx : ℕ) (t : Table) (j : ℕ)
    → (table_free idx t j).handle ≡ (if idx == j then 0 else (t j).handle)
unfolding table_free
table_free-handle idx t j = ground arith
