-- ===== src/Arena/Examples.antt =====
-- Tests of the allocator, and the theorems at concrete inputs.
use webos_bridge_64to.Common.{◌+◌, ◌≤◌, ◌≡◌, refl, inr, [], ◌∷◌, ◌++◌, arith}
use mathlib.Core.List.{map}
use webos_bridge_64to.Arena.Alloc.{
  data_size, u64, full, placed, round4, check_room, place, alloc_attempt, ring_data_alloc,
}
use webos_bridge_64to.Arena.Fit.{start_of}
use webos_bridge_64to.Arena.State.{
  Arena, initial, data_write, begin_command, publish, write, Reach, start, later,
}
use webos_bridge_64to.Arena.Safety.{AllDisjoint, live, write_safe}
use webos_bridge_64to.Arena.Progress.{alloc_returns, alloc_stuck}

code : Unit {0}
unfolding round4 check_room place alloc_attempt ring_data_alloc data_write begin_command publish
code = tt

-- A request behind the head, and one that goes round the end.
places_at_head : ring_data_alloc 10 100 (0 ∷ []) ≡ placed 100 112
unfolding code
places_at_head = refl

goes_round : ring_data_alloc 8 67108860 (67108860 ∷ []) ≡ placed 0 67108872
unfolding code
goes_round = refl

-- After five bytes: eight belong to the first write.
abbrev after_write : Arena
after_write = data_write 5 initial

after_write-Reach : Reach after_write
unfolding code
after_write-Reach = later start (write 5 {offset = 0} {new_head = 8} refl)

write_safe_example :
    (8 + 3 ≤ data_size)
    × AllDisjoint 8 (round4 3) (live after_write)
    × (12 ≡ u64 (start_of (round4 3) after_write.head + round4 3))
unfolding code
write_safe_example = write_safe 3 after_write-Reach refl

-- The first round sees a tail one segment behind, the second one everything released.
alloc_returns_example :
    ring_data_alloc 8 (u64 67108860) (map u64 (0 ∷ []) ++ (u64 67108860 ∷ [])) ≡ placed 0 67108872
unfolding code
alloc_returns_example =
    alloc_returns 8 67108860 (0 ∷ []) (omega arith) (inr (omega arith))
      (omega arith, omega arith, tt)

-- 40 MB after 30 MB: neither side of the head holds it, even with everything released.
alloc_stuck_example : ring_data_alloc 41943040 (u64 31457280) (map u64 (0 ∷ 31457280 ∷ [])) ≡ full
unfolding code
alloc_stuck_example =
    alloc_stuck 41943040 31457280 (0 ∷ 31457280 ∷ []) (omega arith) (omega arith) (omega arith)
      (omega arith)
