-- ===== src/Maps/Agreement.antt =====
-- That the proxy has the maps of the stub after any calls.
use webos_bridge_64to.Common.{ℕ, ◌^◌, ltb, ◌≡◌, refl, Bool, true, false, ◌&&◌, List, [], ◌∷◌, arith}
use webos_bridge_64to.Maps.State.{gl_unmap_buffer}
use webos_bridge_64to.Maps.Unique.{delete_all-IsTracked, fewer-IsTracked, unmap-cases}
use webos_bridge_64to.Maps.Sides.{IsMirrored, Sides, delete_sides, map_sides, unmap_sides}
use webos_bridge_64to.Maps.Mirrored.{delete_all-IsImage, map-IsMirrored, unmap-IsImage}

-- A call of the program, and whether the driver gave memory where it maps.
pub data SidesOp : Type 0 where
  map_range : (mapped : Bool) (buf target offset length access : ℕ) → SidesOp
  unmap : (buf : ℕ) → SidesOp
  delete : (names : List ℕ) → SidesOp

unfoldable pub sides_step : Sides → SidesOp → Sides
sides_step s (map_range mapped buf target offset length access) =
    (map_sides mapped buf target offset length access s).1
sides_step s (unmap buf) = unmap_sides buf s
sides_step s (delete names) = delete_sides names s

unfoldable pub sides_run : List SidesOp → Sides → Sides
sides_run [] s = s
sides_run (op ∷ more) s = sides_run more (sides_step s op)

-- The driver gave memory to each call that maps, and each range that is mapped starts below 2 ^ 31 and is shorter
-- than 2 ^ 31 bytes, so that the proxy's 32 bits hold both numbers.
unfoldable pub all_mapped : List SidesOp → Bool
all_mapped [] = true
all_mapped (map_range mapped buf target offset length access ∷ more) =
    mapped && ltb offset (2 ^ 31) && ltb length (2 ^ 31) && all_mapped more
all_mapped (unmap buf ∷ more) = all_mapped more
all_mapped (delete names ∷ more) = all_mapped more

step-IsMirrored :
    (s : Sides) (op : SidesOp)
    → all_mapped (op ∷ []) ≡ true
    → IsMirrored s
    → IsMirrored (sides_step s op)
unfolding sides_step all_mapped unmap_sides delete_sides
step-IsMirrored s (map_range true buf target offset length access) ok h =
    map-IsMirrored buf target offset length access s (ground arith) (ground arith) h
step-IsMirrored s (map_range false buf target offset length access) ok h = absurd (ground arith)
step-IsMirrored s (unmap buf) ok h = record {
  tracked = fewer-IsTracked s.stub (gl_unmap_buffer buf s.stub) (unmap-cases buf s.stub) h.tracked;
  image = λ i i1 i2. unmap-IsImage buf s i h i1 i2;
}
step-IsMirrored s (delete names) ok h = record {
  tracked = delete_all-IsTracked names s.stub h.tracked;
  image = delete_all-IsImage names s.stub s.proxy h.image;
}

all_mapped-first :
    (op : SidesOp) (more : List SidesOp)
    → all_mapped (op ∷ more) ≡ true
    → all_mapped (op ∷ []) ≡ true
unfolding all_mapped
all_mapped-first (map_range mapped buf target offset length access) more h = ground arith
all_mapped-first (unmap buf) more h = refl
all_mapped-first (delete names) more h = refl

all_mapped-rest :
    (op : SidesOp) (more : List SidesOp) → all_mapped (op ∷ more) ≡ true → all_mapped more ≡ true
unfolding all_mapped
all_mapped-rest (map_range mapped buf target offset length access) more h = ground arith
all_mapped-rest (unmap buf) more h = h
all_mapped-rest (delete names) more h = h

-- While the driver gives memory to each call that maps, and the ranges start below 2 ^ 31 and are shorter than that:
-- whatever the program maps, unmaps and deletes, the
-- proxy has every live map of the stub in the same slot, with the same buffer, target, place, length and
-- access, where it had them before, and the stub keeps one map of a buffer at most.
pub sides_agree :
    (ops : List SidesOp) (s : Sides)
    → all_mapped ops ≡ true
    → IsMirrored s
    → IsMirrored (sides_run ops s)
unfolding sides_run all_mapped
sides_agree [] s ok h = h
sides_agree (op ∷ more) s ok h =
    sides_agree more (sides_step s op) (all_mapped-rest op more ok)
      (step-IsMirrored s op (all_mapped-first op more ok) h)
