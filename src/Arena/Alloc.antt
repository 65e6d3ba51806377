-- ===== src/Arena/Alloc.antt =====
-- stub/bridge_core.c: `ring_data_alloc`. Head and tail are `uint64_t` byte counts that only grow;
-- an offset is such a count modulo the size of the segment.
use webos_bridge_64to.Common.{
  ℕ, ◌+◌, ◌-◌, ◌%◌, ◌^◌, List, [], ◌∷◌, bit_and, ltb, leb, if◌then◌else◌,
}

-- GLES_BRIDGE_DATA_SIZE
abbrev pub data_size : ℕ
data_size = 67108864

abbrev pub u64 : ℕ → ℕ
u64 n = n % 2 ^ 64

-- One round of the loop: it aborts, finds the segment full, or places the request.
pub data Attempt : Type 0 where
  overflow : Attempt
  full : Attempt
  placed : (offset new_head : ℕ) → Attempt

-- `(size + 3u) & ~3u`, with the 32-bit mask widened by zeros
unfoldable pub round4 : ℕ → ℕ
round4 size = bit_and (u64 (size + 3)) 0xfffffffc

-- `new_head - tail > GLES_BRIDGE_DATA_SIZE`
unfoldable pub check_room : ℕ → ℕ → ℕ → Attempt
check_room offset new_head tail =
    if ltb data_size (u64 (new_head + 2 ^ 64 - tail)) then full else placed offset new_head

-- The body of the loop, for a rounded size: at the head, or at 0 with the end left unused.
unfoldable pub place : ℕ → ℕ → ℕ → Attempt
place size head tail =
    let pos = head % data_size in
    let space_to_end = data_size - pos in
    if leb size space_to_end
    then check_room pos (u64 (head + size)) tail
    else check_room 0 (u64 (head + space_to_end + size)) tail

unfoldable pub alloc_attempt : ℕ → ℕ → ℕ → Attempt
alloc_attempt size head tail =
    if ltb data_size size then overflow else place (round4 size) head tail

-- `for (;;)`: each round loads `data_tail` anew; the list holds what the rounds load. The loop is
-- still asleep (`full`) when the list ends.
unfoldable pub ring_data_alloc : ℕ → ℕ → List ℕ → Attempt
ring_data_alloc size head [] = full
ring_data_alloc size head (tail ∷ tails) =
    let rest = ring_data_alloc size head tails in
    elim (alloc_attempt size head tail) [
      | overflow ↦ overflow
      | full ↦ rest
      | placed offset new_head ↦ placed offset new_head
    ]
