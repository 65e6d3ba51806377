-- ===== src/Egl/Configs.antt =====
-- proxy/protocol/egl.c: the loops of `h_eglGetConfigs` and `h_eglChooseConfig` over the configs that the
-- driver returned. `out` is the list of the indices that they write.
use webos_bridge_64to.Common.{ℕ, List, [], ◌∷◌, ◌==◌, if◌then◌else◌}
use webos_bridge_64to.Egl.Table.{Table, find_handle, table_alloc}
use webos_bridge_64to.Egl.State.{max_configs}

-- `h_eglGetConfigs`: a new index first, and the index of an equal handle if the table is full.
unfoldable pub get_config : ℕ → ℕ → Table → ℕ × Table
get_config client_pid real t =
    let (ci, t') = table_alloc max_configs real client_pid t in
    (if ci == 0 then find_handle max_configs 1 real t' else ci, t')

unfoldable pub get_configs : ℕ → List ℕ → Table → List ℕ × Table
get_configs client_pid [] t = ([], t)
get_configs client_pid (real ∷ tmp) t =
    let (ci, t') = get_config client_pid real t in
    let (out, t'') = get_configs client_pid tmp t' in (ci ∷ out, t'')

-- `h_eglChooseConfig`: the index of an equal handle first, and a new one if there is none.
unfoldable pub choose_config : ℕ → ℕ → Table → ℕ × Table
choose_config client_pid real t =
    let ci = find_handle max_configs 1 real t in
    if ci == 0 then table_alloc max_configs real client_pid t else (ci, t)

unfoldable pub choose_configs : ℕ → List ℕ → Table → List ℕ × Table
choose_configs client_pid [] t = ([], t)
choose_configs client_pid (real ∷ tmp) t =
    let (ci, t') = choose_config client_pid real t in
    let (out, t'') = choose_configs client_pid tmp t' in (ci ∷ out, t'')
