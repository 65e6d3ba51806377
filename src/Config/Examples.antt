-- ===== src/Config/Examples.antt =====
-- Tests of the settings file, and the theorems at concrete inputs.
use webos_bridge_64to.Common.{arith, ◌≡◌, refl, some, none, true, false, ◌∷◌, []}
use webos_bridge_64to.Config.Text.{
  Bytes, codes, unlines, fgets, c_string, skip_space, scan_key, scan_long, same_bytes, decimal,
  isspace, isdigit, scan_digits, starts_with_digit, negated, scan_magnitude, scan_signed,
  decimal_digits,
}
use webos_bridge_64to.Config.Slots.{
  slots_of_setting, mask_of_slots, clamp_slots, is_pow2, round_up_pow2,
}
use webos_bridge_64to.Config.File.{
  defaults, ConfFile, config_text, read_config_file, fresh_loader, apply_scanned, read_lines,
  read_line, ensure_loaded, load_ring_slots, flag, ring_slots_of, spin_us_of, apply_setting,
  trim_key, scan_value, scan_setting, is_skipped, bridge_config_ring_slots,
}
use webos_bridge_64to.Config.Validity.{IsValid, read_config_file-IsValid}
use webos_bridge_64to.Config.Agreement.{stub_proxy_same_slots}

-- Opens the whole of the component for the tests.
code : Unit {0}
unfolding apply_scanned isspace isdigit scan_digits starts_with_digit negated scan_magnitude
    scan_signed decimal_digits clamp_slots is_pow2 round_up_pow2 read_lines read_line config_text
    read_config_file ensure_loaded load_ring_slots bridge_config_ring_slots flag ring_slots_of
    spin_us_of apply_setting trim_key scan_value scan_setting is_skipped fgets c_string skip_space
    scan_key scan_long same_bytes unlines decimal slots_of_setting mask_of_slots
code = tt

abbrev missing : ConfFile
missing = record { content = none; writable = true }

written_and_read : (read_config_file 64 (read_config_file 64 missing).1).0 ≡ defaults
unfolding code
written_and_read = refl

abbrev spaced : Bytes
spaced = unlines (
    codes "  # ring_slots=128"
    ∷ codes " ring_slots =  100 "
    ∷ codes "spin_us=-3"
    ∷ codes "spin_us"
    ∷ codes "bogus=1"
    ∷ codes "async_swap=+0x"
    ∷ [])

reads_spaced :
    (read_config_file 64 (record { content = some spaced; writable = false })).0
    ≡ record { ring_slots = 100; async_swap = 0; spin_us = 0; fast_client_wait = 1 }
unfolding code
reads_spaced = refl

abbrev huge : ConfFile
huge = record { content = some (codes "ring_slots=4294967296"); writable = false }

-- The stub's `long` holds 2 ^ 32 and the conversion to `uint32_t` makes it 0; the proxy's saturates.
stub_slots_of_huge : (bridge_config_ring_slots 64 fresh_loader huge).0 ≡ 64
unfolding code
stub_slots_of_huge = refl

proxy_slots_of_huge : (bridge_config_ring_slots 32 fresh_loader huge).0 ≡ 65536
unfolding code
proxy_slots_of_huge = refl

read_config_file-IsValid_example : IsValid (read_config_file 64 huge).0
read_config_file-IsValid_example = read_config_file-IsValid 64 huge

stub_proxy_same_slots_example :
    (bridge_config_ring_slots 32 fresh_loader missing).0
    ≡ (bridge_config_ring_slots 64 fresh_loader missing).0
unfolding code
stub_proxy_same_slots_example = stub_proxy_same_slots missing (omega arith)
