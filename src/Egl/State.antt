-- ===== src/Egl/State.antt =====
-- proxy/protocol/egl.c: the state of the EGL handlers, and the bounds of include/gles_bridge_protocol.h.
use webos_bridge_64to.Common.{ℕ}
use webos_bridge_64to.Egl.Table.{EglHandleEntry, Table, handle_at}

abbrev pub max_displays : ℕ
max_displays = 4

abbrev pub max_configs : ℕ
max_configs = 128

abbrev pub egl_max_contexts : ℕ
egl_max_contexts = 8

abbrev pub max_surfaces : ℕ
max_surfaces = 16

-- MAX_CONTEXTS of include/gles_util_shared.h, the size of the arrays of per-context state.
abbrev pub max_contexts : ℕ
max_contexts = 8

abbrev pub default_egl_idx : ℕ
default_egl_idx = 1

pub record CtxBinding : Type 0 where
  pub dpy : ℕ
  pub draw : ℕ
  pub read : ℕ
  pub valid : ℕ

-- The arguments of the last `eglMakeCurrent` that the driver accepted: what it draws with.
pub record Current : Type 0 where
  pub dpy : ℕ
  pub draw : ℕ
  pub read : ℕ
  pub ctx : ℕ

pub record Egl : Type 0 where
  pub displays : Table
  pub configs : Table
  pub contexts : Table
  pub surfaces : Table
  pub bindings : ℕ → CtxBinding
  pub current_ctx : ℕ
  pub driver : Current

abbrev pub disp : Egl → ℕ → ℕ
disp s i = handle_at max_displays (s.displays) i

abbrev pub cfg : Egl → ℕ → ℕ
cfg s i = handle_at max_configs (s.configs) i

abbrev pub ctx : Egl → ℕ → ℕ
ctx s i = handle_at egl_max_contexts (s.contexts) i

abbrev pub surf : Egl → ℕ → ℕ
surf s i = handle_at max_surfaces (s.surfaces) i

-- After `egl_tables_init` nothing is allocated.
abbrev pub empty_entry : EglHandleEntry
empty_entry = record { handle = 0; owner_pid = 0; initialized = 0; major = 0; minor = 0 }

abbrev pub no_table : Table
no_table i = empty_entry

abbrev pub egl_tables_init : Egl
egl_tables_init = record {
  displays = no_table;
  configs = no_table;
  contexts = no_table;
  surfaces = no_table;
  bindings = λ i. record { dpy = 0; draw = 0; read = 0; valid = 0 };
  current_ctx = 0;
  driver = record { dpy = 0; draw = 0; read = 0; ctx = 0 };
}
