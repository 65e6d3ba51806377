-- ===== src/Arena/Fit.antt =====
-- What one round of `ring_data_alloc` computes, in unbounded counts: the words may have wrapped.
use webos_bridge_64to.Common.{
  ℕ, ◌+◌, ◌-◌, ◌*◌, ◌/◌, ◌%◌, ◌^◌, ◌≤◌, ◌<◌, ◌≡◌, arith, bit_and, ltb, leb, if◌then◌else◌,
}
use webos_bridge_64to.Common.Bits.{bit_and_mask, bit_and_step}
use webos_bridge_64to.Arena.Alloc.{data_size, u64, full, placed, round4, check_room, place}

drop_low_two : (a : ℕ) → a < 2 ^ 32 → bit_and a 0xfffffffc ≡ a / 4 * 4
drop_low_two a h =
    omega (
      arith,
      bit_and_step a 0xfffffffc,
      bit_and_step (a / 2) 0x7ffffffe,
      bit_and_mask 30 (a / 2 / 2),
    )

-- The size rounds up to a multiple of 4, which still fits the segment.
pub round4_lem :
    (size : ℕ)
    → size ≤ data_size
    → (round4 size ≡ (size + 3) / 4 * 4) × (size ≤ round4 size) × (round4 size ≤ data_size)
unfolding round4
round4_lem size h = omega (arith, drop_low_two (u64 (size + 3)) (omega arith))

-- Where a request starts, as a count: at the head, or at the next multiple of the segment's size.
abbrev pub start_of : ℕ → ℕ → ℕ
start_of size head =
    if leb size (data_size - head % data_size) then head else head + (data_size - head % data_size)

-- The start is at or past the head, within one segment, and the request ends before the segment does.
pub start_of_fits :
    (size head : ℕ)
    → size ≤ data_size
    → (head ≤ start_of size head)
      × (start_of size head ≤ head + data_size)
      × (start_of size head % data_size + size ≤ data_size)
start_of_fits size head h = ground arith

-- With `tail ≤ head ≤ tail + data_size`, a round places the request where it starts if and only if
-- its end is at most one segment past the tail; else it finds the segment full.
pub place_lem :
    (size head tail : ℕ)
    → size ≤ data_size
    → tail ≤ head
    → head ≤ tail + data_size
    → place size (u64 head) (u64 tail) ≡ (
        if ltb (tail + data_size) (start_of size head + size)
        then full
        else placed (start_of size head % data_size) (u64 (start_of size head + size)))
unfolding place check_room
place_lem size head tail fits le room = ground arith
