-- ===== src/Config/File.antt =====
-- bridge/bridge_config.c: `read_config_file`, `ensure_loaded`, `load_ring_slots` and the getters.
-- A process keeps `g_cfg` and `g_ring_slots` (`Loader`); the file is what `fopen` finds at
-- BRIDGE_CONFIG_PATH. `w` is the width of `long`: 64 in the stub, 32 in the proxy.
use webos_bridge_64to.Common.{
  ℕ, zero, suc, Bool, true, ◌||◌, Option, none, some, [], ◌∷◌, ◌++◌, ltb, ◌==◌, if◌then◌else◌,
  length,
}
use mathlib.Core.List.{reverse}
use webos_bridge_64to.Common.Int.{ℤ, pos, negsuc}
use webos_bridge_64to.Config.Text.{
  Bytes, unlines, decimal, fgets, c_string, skip_space, scan_key, scan_long, same_bytes, codes,
}
use webos_bridge_64to.Config.Slots.{ring_slots_default, slots_of_setting, mask_of_slots}

abbrev pub async_swap_default : ℕ
async_swap_default = 1

abbrev pub spin_us_default : ℕ
spin_us_default = 50

abbrev pub fast_client_wait_default : ℕ
fast_client_wait_default = 1

-- `BridgeConfig`, without `loaded`. No setting is ever negative.
pub record Settings : Type 0 where
  pub ring_slots : ℕ
  pub async_swap : ℕ
  pub spin_us : ℕ
  pub fast_client_wait : ℕ

abbrev pub defaults : Settings
defaults = record {
  ring_slots = ring_slots_default;
  async_swap = async_swap_default;
  spin_us = spin_us_default;
  fast_client_wait = fast_client_wait_default;
}

-- `val != 0`
unfoldable pub flag : ℤ → ℕ
flag (pos n) = if n == 0 then 0 else 1
flag (negsuc n) = 1

unfoldable pub ring_slots_of : ℤ → ℕ
ring_slots_of (pos n) = if n == 0 then ring_slots_default else n
ring_slots_of (negsuc n) = ring_slots_default

unfoldable pub spin_us_of : ℤ → ℕ
spin_us_of (pos n) = if ltb 10000 n then 10000 else n
spin_us_of (negsuc n) = 0

-- The chain of `strcmp`s.
unfoldable pub apply_setting : Bytes → ℤ → Settings → Settings
apply_setting key val cfg =
    if same_bytes key (codes "ring_slots")
    then record cfg { ring_slots = ring_slots_of val }
    else if same_bytes key (codes "async_swap")
    then record cfg { async_swap = flag val }
    else if same_bytes key (codes "spin_us")
    then record cfg { spin_us = spin_us_of val }
    else if same_bytes key (codes "fast_client_wait")
    then record cfg { fast_client_wait = flag val }
    else cfg

-- `key[klen - 1]` is dropped while it is a space; then `kp` skips those in front.
unfoldable pub trim_key : Bytes → Bytes
trim_key key = skip_space (reverse (skip_space (reverse key)))

-- What `sscanf(p, "%63[^=]=%ld", key, &val)` stores, if it returns 2: a key that is not empty, the
-- `=` behind it, and a number.
unfoldable pub scan_value : ℕ → Bytes × Bytes → Option (Bytes × ℤ)
scan_value w ([], rest) = none
scan_value w (c ∷ key, []) = none
scan_value w (c ∷ key, e ∷ rest) =
    if e == b'='
    then elim (scan_long w rest) [ none ↦ none | some val ↦ some (c ∷ key, val) ]
    else none

unfoldable pub scan_setting : ℕ → Bytes → Option (Bytes × ℤ)
scan_setting w p = scan_value w (scan_key 63 p)

-- The body of the loop over lines; `continue` leaves the settings as they are.
unfoldable pub is_skipped : Bytes → Bool
is_skipped [] = true
is_skipped (b ∷ bs) = b == b'#' || b == 10

unfoldable pub apply_scanned : Option (Bytes × ℤ) → Settings → Settings
apply_scanned none cfg = cfg
apply_scanned (some (key, val)) cfg = apply_setting (trim_key key) val cfg

unfoldable pub read_line : ℕ → Bytes → Settings → Settings
read_line w line cfg =
    let p = skip_space (c_string line) in
    if is_skipped p then cfg else apply_scanned (scan_setting w p) cfg

-- `while (fgets(line, 256, f))`. The fuel bounds the number of lines: each holds a byte at least.
unfoldable pub read_lines : ℕ → ℕ → Bytes → Settings → Settings
read_lines zero w bs cfg = cfg
read_lines (suc fuel) w [] cfg = cfg
read_lines (suc fuel) w (b ∷ bs) cfg =
    let next = fgets 255 (b ∷ bs) in read_lines fuel w next.1 (read_line w next.0 cfg)

-- What `fopen(path, "r")` finds, and whether `fopen(path, "w")` succeeds.
pub record ConfFile : Type 0 where
  pub content : Option Bytes
  pub writable : Bool

-- The text that the `fprintf` writes for given settings; the source passes the defaults.
unfoldable pub config_text : Settings → Bytes
config_text cfg = unlines (
    codes "# proxy configuration"
    ∷ codes "# ring_slots must be a power of two"
    ∷ (codes "ring_slots=" ++ decimal cfg.ring_slots)
    ∷ codes "# 1 = eglSwapBuffers returns without waiting for the proxy to"
    ∷ codes "# present (at most one frame)"
    ∷ (codes "async_swap=" ++ decimal cfg.async_swap)
    ∷ codes "# microseconds to busy-wait before sleeping on an eventfd"
    ∷ codes "# (0 = always sleep)"
    ∷ (codes "spin_us=" ++ decimal cfg.spin_us)
    ∷ codes "# 1 = glClientWaitSync(GL_TIMEOUT_IGNORED) on persistently"
    ∷ codes "# mapped buffers returns immediately; the proxy waits on the"
    ∷ codes "# fence just before it next writes into a real mapping."
    ∷ (codes "fast_client_wait=" ++ decimal cfg.fast_client_wait)
    ∷ [])

-- `read_config_file`: the settings, and the file afterwards.
unfoldable pub read_config_file : ℕ → ConfFile → Settings × ConfFile
read_config_file w f = elim f.content [
  | none ↦ (defaults, if f.writable then record f { content = some (config_text defaults) } else f)
  | some bs ↦ (read_lines (length bs) w bs defaults, f)
]

-- `g_cfg` (`none` is `loaded == 0`) and `g_ring_slots` (0 is "not yet loaded") of one process.
pub record Loader : Type 0 where
  pub cfg : Option Settings
  pub slots : ℕ

abbrev pub fresh_loader : Loader
fresh_loader = record { cfg = none; slots = 0 }

-- `ensure_loaded`: the settings in force, the process and the file afterwards.
unfoldable pub ensure_loaded : ℕ → Loader → ConfFile → Settings × Loader × ConfFile
ensure_loaded w l f = elim l.cfg [
  | some cfg ↦ (cfg, l, f)
  | none ↦ let (cfg, f') = read_config_file w f in (cfg, record l { cfg = some cfg }, f')
]

-- `load_ring_slots`
unfoldable pub load_ring_slots : ℕ → Loader → ConfFile → ℕ × Loader × ConfFile
load_ring_slots w l f =
    let (cfg, l', f') = ensure_loaded w l f in (slots_of_setting cfg.ring_slots, l', f')

unfoldable pub bridge_config_ring_slots : ℕ → Loader → ConfFile → ℕ × Loader × ConfFile
bridge_config_ring_slots w l f =
    if l.slots == 0
    then (let (n, l', f') = load_ring_slots w l f in (n, record l' { slots = n }, f'))
    else (l.slots, l, f)

unfoldable pub bridge_config_ring_mask : ℕ → Loader → ConfFile → ℕ × Loader × ConfFile
bridge_config_ring_mask w l f =
    let (n, l', f') = bridge_config_ring_slots w l f in (mask_of_slots n, l', f')

unfoldable pub bridge_config_async_swap : ℕ → Loader → ConfFile → ℕ × Loader × ConfFile
bridge_config_async_swap w l f = let (cfg, l', f') = ensure_loaded w l f in (cfg.async_swap, l', f')

unfoldable pub bridge_config_spin_us : ℕ → Loader → ConfFile → ℕ × Loader × ConfFile
bridge_config_spin_us w l f = let (cfg, l', f') = ensure_loaded w l f in (cfg.spin_us, l', f')

unfoldable pub bridge_config_fast_client_wait : ℕ → Loader → ConfFile → ℕ × Loader × ConfFile
bridge_config_fast_client_wait w l f =
    let (cfg, l', f') = ensure_loaded w l f in (cfg.fast_client_wait, l', f')
