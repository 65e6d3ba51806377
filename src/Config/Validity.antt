-- ===== src/Config/Validity.antt =====
-- The ranges of the settings that bridge/bridge_config.c reads from a file.
use webos_bridge_64to.Common.{
  ℕ, zero, suc, ◌≤◌, ◌<◌, [], ◌∷◌, Option, none, some, arith, Option-cases, inl, inr, length,
}
use webos_bridge_64to.Common.Int.{ℤ, pos, negsuc}
use webos_bridge_64to.Config.Text.{Bytes, fgets, skip_space, c_string}
use webos_bridge_64to.Config.File.{
  Settings, defaults, flag, ring_slots_of, spin_us_of, apply_setting, trim_key, apply_scanned,
  scan_setting, read_line, read_lines, ConfFile, read_config_file,
}

pub record IsValid (cfg : Settings) : Type 0 where
  pub slots : 0 < cfg.ring_slots
  pub async : cfg.async_swap ≤ 1
  pub spin : cfg.spin_us ≤ 10000
  pub fast : cfg.fast_client_wait ≤ 1

flag-le : (v : ℤ) → flag v ≤ 1
unfolding flag
flag-le (pos n) = ground arith
flag-le (negsuc n) = omega arith

ring_slots_of-pos : (v : ℤ) → 0 < ring_slots_of v
unfolding ring_slots_of
ring_slots_of-pos (pos n) = ground arith
ring_slots_of-pos (negsuc n) = omega arith

spin_us_of-le : (v : ℤ) → spin_us_of v ≤ 10000
unfolding spin_us_of
spin_us_of-le (pos n) = ground arith
spin_us_of-le (negsuc n) = omega arith

apply_setting-IsValid :
    (key : Bytes) (v : ℤ) {cfg : Settings} → IsValid cfg → IsValid (apply_setting key v cfg)
unfolding apply_setting
apply_setting-IsValid key v h = ground (arith, flag-le v, ring_slots_of-pos v, spin_us_of-le v)

apply_scanned-IsValid :
    (o : Option (Bytes × ℤ)) {cfg : Settings} → IsValid cfg → IsValid (apply_scanned o cfg)
unfolding apply_scanned
apply_scanned-IsValid none h = h
apply_scanned-IsValid (some (key, v)) h = apply_setting-IsValid (trim_key key) v h

read_line-IsValid :
    (w : ℕ) (line : Bytes) {cfg : Settings} → IsValid cfg → IsValid (read_line w line cfg)
unfolding read_line
read_line-IsValid w line h =
    ground (arith, apply_scanned-IsValid (scan_setting w (skip_space (c_string line))) h)

read_lines-IsValid :
    (fuel w : ℕ) (bs : Bytes) (cfg : Settings) → IsValid cfg → IsValid (read_lines fuel w bs cfg)
unfolding read_lines
read_lines-IsValid zero w bs cfg h = h
read_lines-IsValid (suc fuel) w [] cfg h = h
read_lines-IsValid (suc fuel) w (b ∷ bs) cfg h =
    let next = fgets 255 (b ∷ bs) in
    read_lines-IsValid fuel w next.1 (read_line w next.0 cfg) (read_line-IsValid w next.0 h)

defaults-IsValid : IsValid defaults
defaults-IsValid = omega arith

-- Whatever the file holds, and whether or not there is one, `read_config_file` leaves a positive
-- ring size, flags that are 0 or 1, and at most 10000 microseconds of spinning.
pub read_config_file-IsValid : (w : ℕ) (f : ConfFile) → IsValid (read_config_file w f).0
unfolding read_config_file
read_config_file-IsValid w f = elim (Option-cases f.content) [
  | inl absent ↦ rw absent defaults-IsValid
  | inr (bs, found) ↦ rw found (read_lines-IsValid (length bs) w bs defaults defaults-IsValid)
]
