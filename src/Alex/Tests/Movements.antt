-- ===== src/Alex/Tests/Movements.antt =====
-- Movements at concrete inputs (alex/robotlib.ino, alex/alex.ino).
use cg2111a_b.Base.{◌≡◌, refl, arith, inl, List, [], ◌∷◌, some}
use cg2111a_b.Alex.{Alex, World, Motor}
use cg2111a_b.Alex.Motion.{speed_scaled, forward}
use cg2111a_b.Alex.Sensors.{get_ultrasonic_distance}
use cg2111a_b.Alex.Happenings.{Happening, left_tick, right_tick, idle, run_all, last_speed}
use cg2111a_b.Alex.Going.{going_left}
use cg2111a_b.Alex.Starting.{start}
use cg2111a_b.Alex.Turning.{to_left, run_all-turns}
use cg2111a_b.Alex.Driving.{run_all-drives}
use cg2111a_b.Alex.Tests.{arduino, is_text, reset}

-- A turn of 90 degrees to the left takes two ticks of the left wheel: one is not enough, whatever
-- the right wheel does.
abbrev half_way : List Happening
half_way = idle ∷ right_tick ∷ left_tick ∷ right_tick ∷ right_tick ∷ idle ∷ []

run_all-turns_example :
    (s' : Alex arduino.Receiver) × (run_all arduino half_way (start arduino going_left 90 50 reset)
      ≡ some s')
    × (s'.dir ≡ 3)
    × ((m : Motor) → last_speed m s'.calls ≡ some (speed_scaled arduino 50))
run_all-turns_example =
    run_all-turns arduino to_left 90 50 reset half_way refl (unfold is_text in omega arith)
      (unfold is_text in omega arith)

-- A wall 5 cm away.
abbrev wall : World
wall = record arduino { pulse = λ s pin. 300 }

abbrev approach : List Happening
approach = idle ∷ left_tick ∷ right_tick ∷ idle ∷ left_tick ∷ idle ∷ []

run_all-drives_example :
    (s' : Alex arduino.Receiver) × (run_all wall approach (forward wall 50 80 reset) ≡ some s')
    × (s'.dir ≡ 1)
    × ((m : Motor) → last_speed m s'.calls ≡ some (speed_scaled wall 80))
run_all-drives_example =
    run_all-drives wall 50 80 reset approach
      (unfold get_ultrasonic_distance is_text in λ s. inl (omega arith))
      (unfold is_text in omega arith) (omega arith) (unfold is_text in λ k h. omega arith)
