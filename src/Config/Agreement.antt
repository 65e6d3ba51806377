-- ===== src/Config/Agreement.antt =====
-- The stub reads the file with a 64-bit `long`, the proxy with a 32-bit one.
use webos_bridge_64to.Common.{
  ◌∙◌, sym, ℕ, zero, suc, ◌-◌, ◌%◌, ◌^◌, ◌≤◌, ◌<◌, ◌≡◌, refl, [], ◌∷◌, Option, none, some, arith,
  Bool, Option-cases, inl, inr, true, false, length, min, ap,
}
use webos_bridge_64to.Common.Int.{ℤ, pos, negsuc}
use webos_bridge_64to.Config.Slots.{u32, clamp_slots, slots_of_setting}
use webos_bridge_64to.Config.Rounding.{slots_of_setting_rounds}
use webos_bridge_64to.Config.Text.{
  Bytes, fgets, skip_space, c_string, scan_key, scan_long, scan_signed, scan_magnitude, negated,
  scan_digits,
}
use webos_bridge_64to.Config.File.{
  Settings, defaults, flag, ring_slots_of, spin_us_of, apply_setting, apply_scanned, trim_key,
  scan_setting, scan_value, read_line, read_lines, ConfFile, read_config_file, fresh_loader,
  bridge_config_ring_slots, load_ring_slots, ensure_loaded,
}

-- A number as a 32-bit `long` holds it.
abbrev pub narrow : ℤ → ℤ
narrow (pos n) = pos (min n (2 ^ 31 - 1))
narrow (negsuc n) = negsuc (min n (2 ^ 31 - 1))

abbrev narrow? : Option ℤ → Option ℤ
narrow? none = none
narrow? (some v) = some (narrow v)

abbrev narrow_setting : Option (Bytes × ℤ) → Option (Bytes × ℤ)
narrow_setting none = none
narrow_setting (some (key, v)) = some (key, narrow v)

abbrev pub narrow_settings : Settings → Settings
narrow_settings cfg = record cfg { ring_slots = min cfg.ring_slots (2 ^ 31 - 1) }

negated-narrow : (n : ℕ) → negated (min n (2 ^ 31)) ≡ narrow (negated (min n (2 ^ 63)))
unfolding negated
negated-narrow n = ground arith

scan_magnitude_narrow :
    (neg : Bool) (bs : Bytes) → scan_magnitude 32 neg bs ≡ narrow? (scan_magnitude 64 neg bs)
unfolding scan_magnitude
scan_magnitude_narrow neg bs = ground (arith, negated-narrow (scan_digits 0 bs))

scan_signed_narrow : (bs : Bytes) → scan_signed 32 bs ≡ narrow? (scan_signed 64 bs)
unfolding scan_signed
scan_signed_narrow [] = refl
scan_signed_narrow (b ∷ bs) = ground (
  arith,
  scan_magnitude_narrow true bs,
  scan_magnitude_narrow false bs,
  scan_magnitude_narrow false (b ∷ bs),
)

scan_long_narrow : (bs : Bytes) → scan_long 32 bs ≡ narrow? (scan_long 64 bs)
unfolding scan_long
scan_long_narrow bs = scan_signed_narrow (skip_space bs)

scan_value_narrow : (s : Bytes × Bytes) → scan_value 32 s ≡ narrow_setting (scan_value 64 s)
unfolding scan_value
scan_value_narrow ([], rest) = refl
scan_value_narrow (c ∷ key, []) = refl
scan_value_narrow (c ∷ key, e ∷ rest) = ground (arith, scan_long_narrow rest)

scan_setting_narrow : (p : Bytes) → scan_setting 32 p ≡ narrow_setting (scan_setting 64 p)
unfolding scan_setting
scan_setting_narrow p = scan_value_narrow (scan_key 63 p)

flag_narrow : (v : ℤ) → flag (narrow v) ≡ flag v
unfolding flag
flag_narrow (pos n) = ground arith
flag_narrow (negsuc n) = refl

spin_us_narrow : (v : ℤ) → spin_us_of (narrow v) ≡ spin_us_of v
unfolding spin_us_of
spin_us_narrow (pos n) = ground arith
spin_us_narrow (negsuc n) = refl

ring_slots_narrow : (v : ℤ) → ring_slots_of (narrow v) ≡ min (ring_slots_of v) (2 ^ 31 - 1)
unfolding ring_slots_of
ring_slots_narrow (pos n) = ground arith
ring_slots_narrow (negsuc n) = refl

apply_setting-narrow :
    (key : Bytes) (v : ℤ) (cfg : Settings)
    → apply_setting key (narrow v) (narrow_settings cfg) ≡ narrow_settings (apply_setting key v cfg)
unfolding apply_setting
apply_setting-narrow key v cfg =
    ground (arith, flag_narrow v, spin_us_narrow v, ring_slots_narrow v)

apply_scanned_narrow :
    (o : Option (Bytes × ℤ)) (cfg : Settings)
    → apply_scanned (narrow_setting o) (narrow_settings cfg) ≡ narrow_settings (apply_scanned o cfg)
unfolding apply_scanned
apply_scanned_narrow none cfg = refl
apply_scanned_narrow (some (key, v)) cfg = apply_setting-narrow (trim_key key) v cfg

read_line_narrow :
    (line : Bytes) (cfg : Settings)
    → read_line 32 line (narrow_settings cfg) ≡ narrow_settings (read_line 64 line cfg)
unfolding read_line
read_line_narrow line cfg =
    let p = skip_space (c_string line) in
    ground (
      arith,
      scan_setting_narrow p,
      apply_scanned_narrow (scan_setting 64 p) cfg,
      ap (λ o. apply_scanned o (narrow_settings cfg)) (scan_setting_narrow p),
    )

read_lines_narrow :
    (fuel : ℕ) (bs : Bytes) (cfg : Settings)
    → read_lines fuel 32 bs (narrow_settings cfg) ≡ narrow_settings (read_lines fuel 64 bs cfg)
unfolding read_lines
read_lines_narrow zero bs cfg = refl
read_lines_narrow (suc fuel) [] cfg = refl
read_lines_narrow (suc fuel) (b ∷ bs) cfg =
    let next = fgets 255 (b ∷ bs) in
    ap (read_lines fuel 32 next.1) (read_line_narrow next.0 cfg)
    ∙ read_lines_narrow fuel next.1 (read_line 64 next.0 cfg)

-- From the same file, the proxy gets the stub's settings, but for a ring size cut at 2 ^ 31 - 1.
pub settings_narrow :
    (f : ConfFile) → (read_config_file 32 f).0 ≡ narrow_settings (read_config_file 64 f).0
unfolding read_config_file
settings_narrow f = elim (Option-cases f.content) [
  | inl absent ↦ rw absent
  | inr (bs, found) ↦ rw found (read_lines_narrow (length bs) bs defaults)
]

-- What a process that has not asked before gets.
first_slots :
    (w : ℕ) (f : ConfFile)
    → (bridge_config_ring_slots w fresh_loader f).0
      ≡ slots_of_setting (read_config_file w f).0.ring_slots
unfolding bridge_config_ring_slots load_ring_slots ensure_loaded
first_slots w f = refl

clamp_of_narrow :
    (n : ℕ) → n < 2 ^ 32 → clamp_slots (u32 (min n (2 ^ 31 - 1))) ≡ clamp_slots (u32 n)
unfolding clamp_slots
clamp_of_narrow n h = ground arith

slots_of_clamp :
    (n m : ℕ) → clamp_slots (u32 n) ≡ clamp_slots (u32 m) → slots_of_setting n ≡ slots_of_setting m
unfolding slots_of_setting
slots_of_clamp n m h = rw h

-- The stub and the proxy lay the same ring out, if the setting as the stub reads it is below 2 ^ 32.
pub stub_proxy_same_slots :
    (f : ConfFile)
    → (read_config_file 64 f).0.ring_slots < 2 ^ 32
    → (bridge_config_ring_slots 32 fresh_loader f).0
      ≡ (bridge_config_ring_slots 64 fresh_loader f).0
stub_proxy_same_slots f h =
    first_slots 32 f
    ∙ ap (λ (s : Settings). slots_of_setting s.ring_slots) (settings_narrow f)
    ∙ slots_of_clamp _ _ (clamp_of_narrow _ h)
    ∙ sym (first_slots 64 f)

small_clamp : (n : ℕ) → n % 2 ^ 32 ≤ 32768 → clamp_slots (u32 n) ≤ 32768
unfolding clamp_slots
small_clamp n h = ground arith

proxy_slots_of_large : slots_of_setting (2 ^ 31 - 1) ≡ 65536
unfolding slots_of_setting
proxy_slots_of_large = refl

-- A setting from 2 ^ 32 on whose low 32 bits are at most 32768 makes the stub lay out a smaller
-- ring than the proxy, which then masks its sequence numbers differently.
stub_proxy_slots_differ :
    (f : ConfFile)
    → 2 ^ 32 ≤ (read_config_file 64 f).0.ring_slots
    → (read_config_file 64 f).0.ring_slots % 2 ^ 32 ≤ 32768
    → (bridge_config_ring_slots 64 fresh_loader f).0
      < (bridge_config_ring_slots 32 fresh_loader f).0
stub_proxy_slots_differ f big low =
    let n = (read_config_file 64 f).0.ring_slots in
    let (k, e, _, hi, _, _) = slots_of_setting_rounds n in
    omega (
      arith,
      first_slots 64 f,
      first_slots 32 f,
      ap (λ (s : Settings). slots_of_setting s.ring_slots) (settings_narrow f),
      ap slots_of_setting (cut n big),
      proxy_slots_of_large,
      small_clamp n low,
      hi,
      e,
    )
  where
    cut : (n : ℕ) → 2 ^ 32 ≤ n → min n (2 ^ 31 - 1) ≡ 2 ^ 31 - 1
    cut n h = omega arith
