-- ===== src/Pi/Threads/Bound.antt =====
-- The delay in the states that the threads reach (RPi/alex-pi.cpp, RPi/usart.cpp).
use cg2111a_b.Base.{ℕ, suc, ◌+◌, ◌*◌, ◌≡◌, arith, some, Ensures-at}
use cg2111a_b.Base.Int.{ℤ, pos, ◌+ℤ◌, ◌-ℤ◌, ◌≤ℤ◌, int_laws}
use cg2111a_b.Pi.{Pi, World}
use cg2111a_b.Pi.Control.{pressed, timed}
use cg2111a_b.Pi.Keys.{on_event}
use cg2111a_b.Pi.Main.{globals, boot}
use cg2111a_b.Pi.Serial.{Ports}
use cg2111a_b.Pi.Quiet.{handled-IsQuiet, packet_error-IsQuiet}
use cg2111a_b.Pi.Threads.{
  Config, between, holding, Step, typed, press, adjust, open_window, event, draw, close_window,
  receive_between, receive_holding, fail_between, fail_holding, Reach, here, further,
}
use cg2111a_b.Pi.Threads.Delay.{params_control-Has, pressed-Has, timed-Has, on_event-Has, boot-Has}

abbrev pub delay_of : {Float : Type 0} → Config Float → ℤ
delay_of (between s) = s.delay_time
delay_of (holding k s) = s.delay_time

abbrev pub AtMost : ℕ → ℤ → Type 0
AtMost n z = z ≤ℤ pos n

later : (n : ℕ) (z : ℤ) → AtMost n z → AtMost (n + 50) z
later n z h = omega arith

longer : (n : ℕ) (z : ℤ) → AtMost n z → AtMost (n + 50) (z +ℤ pos 50)
longer n z h = omega int_laws

shorter : (n : ℕ) (z : ℤ) → AtMost n z → AtMost (n + 50) (z -ℤ pos 50)
shorter n z h = omega int_laws

module _ (w : World) (key_name : ℕ → ℕ) where
  open w use {Float}

  -- The turns of a chain.
  abbrev pub turns : {c d : Config Float} → Reach w key_name c d → ℕ
  turns here = 0
  turns (further d e r step) = suc (turns r)

  Step-AtMost :
      (n : ℕ) (c d : Config Float)
      → Step w key_name c d
      → AtMost n (delay_of c)
      → AtMost (n + 50) (delay_of d)
  Step-AtMost n _ _ (typed chars rest s s' exit mode run) h =
      later n _ (params_control-Has w (AtMost n) chars rest s s' run h)
  Step-AtMost n _ _ (press c s s' exit mode run) h =
      later n _ (Ensures-at _ (pressed w c s) s' run (pressed-Has w (AtMost n) c s h))
  Step-AtMost n _ _ (adjust c s s' exit mode run) h = Ensures-at _ (timed w c s) s' run (
      timed-Has w (AtMost n) (AtMost (n + 50)) (later n) c s (longer n) (λ z k e. shorter n z k)
        (omega arith) h)
  Step-AtMost n _ _ (open_window s exit mode) h = later n s.delay_time h
  Step-AtMost n _ _ (event e k k' s s' stop run) h = later n s'.delay_time (
      Ensures-at _ (on_event w key_name e k s) (k', s') run
        (on_event-Has w (AtMost n) key_name e k s h))
  Step-AtMost n _ _ (draw k s quit) h = later n s.delay_time h
  Step-AtMost n _ _ (close_window k s quit) h = later n s.delay_time h
  Step-AtMost n _ _ (receive_between p s s' run) h =
      later n _ (rw (handled-IsQuiet w p s s' run).delay_time h)
  Step-AtMost n _ _ (receive_holding p k s s' run) h =
      later n _ (rw (handled-IsQuiet w p s s' run).delay_time h)
  Step-AtMost n _ _ (fail_between r s) h = later n _ (rw (packet_error-IsQuiet r s).delay_time h)
  Step-AtMost n _ _ (fail_holding r k s) h = later n _ (rw (packet_error-IsQuiet r s).delay_time h)

  Reach-AtMost :
      (n : ℕ) (c d : Config Float) (r : Reach w key_name c d)
      → AtMost n (delay_of c)
      → AtMost (n + 50 * turns r) (delay_of d)
  Reach-AtMost n c _ here h = omega arith
  Reach-AtMost n c e (further d _ r step) h =
      let bounded = Step-AtMost (n + 50 * turns r) d e step (Reach-AtMost n c d r h) in omega arith

  pub boot-AtMost :
      (d : Ports) (s : Pi Float) (e : Config Float) (r : Reach w key_name (between s) e)
      → boot w d globals ≡ some s
      → AtMost (150 + 50 * turns r) (delay_of e)
  boot-AtMost d s e r run =
      Reach-AtMost 150 (between s) e r (boot-Has w (AtMost 150) d s run (omega arith))
