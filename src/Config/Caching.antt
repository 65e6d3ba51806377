-- ===== src/Config/Caching.antt =====
-- What bridge/bridge_config.c keeps of its first reading of the file.
use native.Mathlib.Nat.{one-le-pow}
use webos_bridge_64to.Common.{ℕ, ◌<◌, ◌≡◌, arith}
use webos_bridge_64to.Config.Slots.{slots_of_setting}
use webos_bridge_64to.Config.Rounding.{slots_of_setting_rounds}
use webos_bridge_64to.Config.File.{
  ConfFile, Loader, ensure_loaded, load_ring_slots, bridge_config_ring_slots,
}

slots_of_setting-pos : (n : ℕ) → 0 < slots_of_setting n
slots_of_setting-pos n =
    let (k, e, _, _, _, _) = slots_of_setting_rounds n in
    omega (arith, one-le-pow k 2 (omega arith))

-- Once a process has asked for its ring size, it gets that size again and changes nothing, whatever
-- the file has become.
ring_slots_settled :
    (w : ℕ) (l : Loader) (f f' : ConfFile)
    → let (n, l', _) = bridge_config_ring_slots w l f in
      bridge_config_ring_slots w l' f' ≡ (n, l', f')
unfolding bridge_config_ring_slots load_ring_slots
ring_slots_settled w l f f' =
    ground (arith, slots_of_setting-pos (ensure_loaded w l f).0.ring_slots)
