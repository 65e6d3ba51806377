-- ===== src/Wire/Examples.antt =====
-- The theorems at concrete arguments.
use webos_bridge_64to.Common.{◌≡◌, List, [], ◌∷◌}
use webos_bridge_64to.Wire.Args.{Arg, word32, word64, aw_init, ar_init, aw_all, ar_all}
use webos_bridge_64to.Wire.RoundTrip.{args_round_trip}

abbrev three : List Arg
three = word32 7 ∷ word64 4294967296 ∷ word32 4294967297 ∷ []

args_round_trip_example :
    (ar_all three (ar_init (aw_all three (aw_init (λ i. 0) 256)).buf 16)).0
    ≡ 7 ∷ 4294967296 ∷ 1 ∷ []
args_round_trip_example = args_round_trip three (λ i. 0) 256 16
