-- ===== src/Alex/Happenings.antt =====
-- What happens to the Arduino between two packets of the Raspberry Pi: interrupts of the two wheel
-- encoders, and turns of `loop` (alex/alex.ino) that find no byte to read. An interrupt during a
-- turn counts as one before or after it.
use cg2111a_b.Base.{
  ℕ, suc, ◌≡◌, refl, ◌∙◌, Bool, ◌&&◌, true, false, ◌⊎◌, inl, inr, List, [], ◌∷◌, Option, none, some,
  ◌>>=◌, if◌then◌else◌, ◌==◌, ltb, leb, if-holds,
}
use cg2111a_b.Base.Int.{ℤ, pos}
use cg2111a_b.Alex.{
  Alex, World, Event, Motor, front_left, front_right, back_left, back_right, set_speed, run, emit,
  read, stopped, forwards, backwards, leftwards, rightwards,
}
use cg2111a_b.Alex.Motion.{speed_scaled, stop, move, run_motors, set_speeds}
use cg2111a_b.Alex.Encoders.{left_isr, right_isr}
use cg2111a_b.Alex.Replies.{send_message, send_response}
use cg2111a_b.Alex.Sensors.{get_ultrasonic_distance}
use cg2111a_b.Alex.Main.{
  avoid_collision, wait_stopped, end_distance, end_turn, is_near, auto_stopped, check_distance,
  check_turn, loop, read_packet, read_serial, answer,
}

pub data Happening : Type 0 where
  left_tick right_tick idle : Happening

abbrev pub lefts : List Happening → ℕ
lefts [] = 0
lefts (left_tick ∷ hs) = suc (lefts hs)
lefts (_ ∷ hs) = lefts hs

abbrev pub rights : List Happening → ℕ
rights [] = 0
rights (right_tick ∷ hs) = suc (rights hs)
rights (_ ∷ hs) = rights hs

abbrev same : Motor → Motor → Bool
same front_left front_left = true
same front_right front_right = true
same back_left back_left = true
same back_right back_right = true
same _ _ = false

-- The last speed and the last direction that a motor was given.
abbrev pub last_speed : Motor → List Event → Option ℤ
last_speed m [] = none
last_speed m (set_speed m' v ∷ calls) = if same m m' then some v else last_speed m calls
last_speed m (_ ∷ calls) = last_speed m calls

abbrev pub last_run : Motor → List Event → Option ℕ
last_run m [] = none
last_run m (run m' d ∷ calls) = if same m m' then some d else last_run m calls
last_run m (_ ∷ calls) = last_run m calls

-- When the two checks of a turn end the movement.
abbrev pub distance_done : {R : Type 0} → Alex R → Bool
distance_done s =
    ltb 0 s.delta_dist
    && (if s.dir == forwards
        then ltb s.new_dist s.forward_dist
        else (if s.dir == backwards then ltb s.new_dist s.reverse_dist else s.dir == stopped))

abbrev pub turn_done : {R : Type 0} → Alex R → Bool
turn_done s =
    ltb 0 s.delta_ticks
    && (if s.dir == leftwards
        then leb s.target_ticks s.left_reverse_turns
        else (if s.dir == rightwards
            then leb s.target_ticks s.right_reverse_turns
            else s.dir == stopped))

nested :
    {A : Type 0} (a b c d e f : Bool) (x y : A)
    → (if a
        then (if b
            then (if c then x else y)
            else (if d then (if e then x else y) else (if f then x else y)))
        else y)
      ≡ (if a && (if b then c else (if d then e else f)) then x else y)
nested false b c d e f x y = refl
nested true true c d e f x y = refl
nested true false c true e f x y = refl
nested true false c false e f x y = refl

module _ (w : World) where
  open w use {Receiver}

  abbrev pub happen : Happening → Alex Receiver → Option (Alex Receiver)
  happen left_tick s = some (left_isr w s)
  happen right_tick s = some (right_isr s)
  happen idle s = loop w [] s

  unfoldable pub run_all : List Happening → Alex Receiver → Option (Alex Receiver)
  run_all [] s = some s
  run_all (h ∷ hs) s = do s' ← happen h s; run_all hs s'

  -- The rover stands, and nothing is left to be driven.
  pub record IsHalted (s : Alex Receiver) : Type 0 where
    pub no_dir : s.dir ≡ 0
    pub no_dist : s.delta_dist ≡ 0
    pub no_ticks : s.delta_ticks ≡ 0
    pub no_prevention : s.prevent_collision ≡ false
    pub speeds : (m : Motor) → last_speed m s.calls ≡ some (speed_scaled w (w.of_int (pos 0)))
    pub runs : (m : Motor) → last_run m s.calls ≡ some 0

  stop_speeds :
      (s : Alex Receiver) (m : Motor)
      → last_speed m (stop w s).calls ≡ some (speed_scaled w (w.of_int (pos 0)))
  unfolding stop move run_motors set_speeds
  stop_speeds s front_left = refl
  stop_speeds s front_right = refl
  stop_speeds s back_left = refl
  stop_speeds s back_right = refl

  stop_runs : (s : Alex Receiver) (m : Motor) → last_run m (stop w s).calls ≡ some 0
  unfolding stop move run_motors set_speeds
  stop_runs s front_left = refl
  stop_runs s front_right = refl
  stop_runs s back_left = refl
  stop_runs s back_right = refl

  pub stop-IsHalted : (s : Alex Receiver) → IsHalted (stop w s)
  unfolding stop move run_motors set_speeds
  stop-IsHalted s = record {
    no_dir = refl;
    no_dist = refl;
    no_ticks = refl;
    no_prevention = refl;
    speeds = stop_speeds s;
    runs = stop_runs s;
  }

  -- Calls that are none of the motors'.
  pub quiet-IsHalted :
      (s : Alex Receiver) (calls : List Event)
      → ((m : Motor) → last_speed m calls ≡ last_speed m s.calls)
      → ((m : Motor) → last_run m calls ≡ last_run m s.calls)
      → IsHalted s
      → IsHalted (record s { calls = calls })
  quiet-IsHalted s calls speeds runs h = record {
    no_dir = h.no_dir;
    no_dist = h.no_dist;
    no_ticks = h.no_ticks;
    no_prevention = h.no_prevention;
    speeds = λ m. speeds m ∙ h.speeds m;
    runs = λ m. runs m ∙ h.runs m;
  }

  said-IsHalted :
      (message : List ℕ) (s : Alex Receiver) → IsHalted s → IsHalted (send_message w message s)
  unfolding send_message send_response
  said-IsHalted message s h = quiet-IsHalted s _ (λ m. refl) (λ m. refl) h

  abbrev pub Outcome : Alex Receiver → Alex Receiver → Type 0
  Outcome s t = IsHalted t ⊎ ((calls : List Event) × (t ≡ record s { calls = calls }))

  pub waited-IsHalted : (s : Alex Receiver) → IsHalted (wait_stopped w s)
  waited-IsHalted s = quiet-IsHalted (stop w s) _ (λ m. refl) (λ m. refl) (stop-IsHalted s)

  -- The checks of a turn stop the rover or leave it as it was.
  pub avoid_collision-cases : (s : Alex Receiver) → Outcome s (avoid_collision w s)
  unfolding avoid_collision get_ultrasonic_distance
  avoid_collision-cases s =
      let (d, s') = get_ultrasonic_distance w s in
      if-holds (Outcome s) s.prevent_collision
        (if is_near d then send_message w auto_stopped (stop w s') else s') s
        (λ e.
          if-holds (Outcome s) (is_near d) (send_message w auto_stopped (stop w s')) s'
            (λ near. inl (said-IsHalted auto_stopped (stop w s') (stop-IsHalted s')))
            (λ far. inr (s'.calls, refl)))
        (λ e. inr (s.calls, refl))

  pub check_distance_lem :
      (s : Alex Receiver) → check_distance w s ≡ (if distance_done s then end_distance w s else s)
  unfolding check_distance
  check_distance_lem s =
      nested (ltb 0 s.delta_dist) (s.dir == forwards) (ltb s.new_dist s.forward_dist)
        (s.dir == backwards) (ltb s.new_dist s.reverse_dist) (s.dir == stopped) (end_distance w s) s

  pub check_turn_lem :
      (s : Alex Receiver) → check_turn w s ≡ (if turn_done s then end_turn w s else s)
  unfolding check_turn
  check_turn_lem s =
      nested (ltb 0 s.delta_ticks) (s.dir == leftwards) (leb s.target_ticks s.left_reverse_turns)
        (s.dir == rightwards) (leb s.target_ticks s.right_reverse_turns) (s.dir == stopped)
        (end_turn w s) s

  pub loop_idle :
      (s : Alex Receiver)
      → loop w [] s ≡ some (emit (read []) (check_turn w (check_distance w (avoid_collision w s))))
  unfolding loop read_packet read_serial answer
  loop_idle s = refl
