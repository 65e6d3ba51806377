-- ===== src/Egl/Choose.antt =====
-- proxy/protocol/egl.c: the indices that the proxy gives for the driver's configs.
use webos_bridge_64to.Common.{ℕ, ◌≤◌, ◌≡◌, ◌≢◌, ◌⊎◌, List, [], ◌∷◌, arith, refl, sym, ◌∙◌}
use webos_bridge_64to.Egl.Table.{Table, table_alloc}
use webos_bridge_64to.Egl.State.{max_configs}
use webos_bridge_64to.Egl.Configs.{choose_config, choose_configs}
use webos_bridge_64to.Egl.Lookup.{find_handle-found}
use webos_bridge_64to.Egl.Bindings.{table_alloc-keeps}

abbrev pub AllNonzero : List ℕ → Type 0
AllNonzero [] = Unit
AllNonzero (x ∷ xs) = (x ≢ 0) × AllNonzero xs

-- Each index is 0, or inside the table and stands for the config at its place.
abbrev pub AllStandFor : Table → List ℕ → List ℕ → Type 0
AllStandFor t [] [] = Unit
AllStandFor t [] (real ∷ tmp) = ⊥
AllStandFor t (ci ∷ out) [] = ⊥
AllStandFor t (ci ∷ out) (real ∷ tmp) =
    ((ci ≡ 0) ⊎ ((ci ≤ max_configs) × ((t ci).handle ≡ real))) × AllStandFor t out tmp

choose_config-keeps :
    (pid real : ℕ) (t : Table) (j : ℕ)
    → (t j).handle ≢ 0
    → ((choose_config pid real t).1 j).handle ≡ (t j).handle
unfolding choose_config
choose_config-keeps pid real t j h = ground (arith, table_alloc-keeps max_configs real pid t j)

choose_configs-keeps :
    (pid : ℕ) (tmp : List ℕ) (t : Table) (j : ℕ)
    → (t j).handle ≢ 0
    → ((choose_configs pid tmp t).1 j).handle ≡ (t j).handle
unfolding choose_configs
choose_configs-keeps pid [] t j h = refl
choose_configs-keeps pid (real ∷ tmp) t j h =
    let first = choose_config-keeps pid real t j h in
    choose_configs-keeps pid tmp (choose_config pid real t).1 j (λ e. h (sym first ∙ e)) ∙ first

choose_config_lem :
    (pid real : ℕ) (t : Table)
    → let (ci, t') = choose_config pid real t in
      (ci ≡ 0) ⊎ ((ci ≤ max_configs) × ((t' ci).handle ≡ real))
unfolding choose_config table_alloc
choose_config_lem pid real t =
    ground (arith, find_handle-found max_configs 1 real t, find_handle-found max_configs 1 0 t)

-- `h_eglChooseConfig` writes one index for each config of the driver, in its order: 0 when the table is
-- full, or an index that stands for the config once the loop is done.
choose_configs_stand :
    (pid : ℕ) (tmp : List ℕ) (t : Table)
    → AllNonzero tmp
    → let (out, t') = choose_configs pid tmp t in AllStandFor t' out tmp
unfolding choose_configs
choose_configs_stand pid [] t nz = tt
choose_configs_stand pid (real ∷ tmp) t (nz, more) =
    let (ci, t') = choose_config pid real t in
    (
      ground (arith, choose_config_lem pid real t, choose_configs-keeps pid tmp t' ci),
      choose_configs_stand pid tmp t' more,
    )
