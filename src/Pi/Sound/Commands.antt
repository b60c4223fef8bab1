-- ===== src/Pi/Sound/Commands.antt =====
-- `sendCommand` (RPi/usart.cpp) keeps the globals sound.
use cg2111a_b.Base.{ℕ, ◌≡◌, refl, arith, some, >>=-eq-some, ◌||◌, ◌==◌, Bool-cases, inl, inr}
use cg2111a_b.Packet.{Packet}
use cg2111a_b.Serialize.{serialize}
use cg2111a_b.Pi.{Pi, World}
use cg2111a_b.Pi.Serial.{serial_write}
use cg2111a_b.Pi.Send.{
  Case, mode_params, mode_hold, mode_press, mode_timed, move, stop, clear_stats, get_stats, color,
  dist, lcd, help, quit, bad, case_of, send_packet, get_params, run_case, send_command,
}
use cg2111a_b.Pi.Sound.{
  IsSound, drawn-IsSound, some_inj, leave_curses_calls, enter_curses_calls, leave_curses_off,
  enter_curses_on, serial_write-IsSound, entered-IsSound,
}

module _ (w : World) where
  open w use {Float}

  pub send_packet-IsSound :
      (p : Packet) (s s' : Pi Float) → send_packet w p s ≡ some s' → IsSound s → IsSound s'
  unfolding send_packet
  send_packet-IsSound p s s' run h =
      let (r, _, e) = >>=-eq-some (serialize _ _ _ _) _ run in
      let same : serial_write r.0 s ≡ s' = cc in rw (← same) (serial_write-IsSound r.0 s h)

  get_params-IsSound : (p : Packet) (s : Pi Float) → IsSound s → IsSound (get_params w p s).1
  unfolding get_params
  get_params-IsSound p s h = elim (Bool-cases (s.keyboard_mode == 1)) [
    | inl e ↦ rw e (drawn-IsSound s _ h refl)
    | inr e ↦ rw e (elim (Bool-cases (s.keyboard_mode == 2 || s.keyboard_mode == 3)) [
      | inl f ↦ rw f h
      | inr f ↦ rw f (elim (Bool-cases (s.keyboard_mode == 4)) [ inl g ↦ rw g h | inr g ↦ rw g h ])
    ])
  ]

  run_case-IsSound :
      (k : Case) (p : Packet) (s s' : Pi Float)
      → run_case w k p s ≡ some s'
      → IsSound s
      → IsSound s'
  unfolding run_case
  run_case-IsSound mode_params p s s' run h = rw (← some_inj run) (
      rw leave_curses_calls
        (entered-IsSound s _ 1 h (omega arith) (omega arith) (leave_curses_off s h)))
  run_case-IsSound mode_hold p s s' run h = rw (← some_inj run) (
      rw leave_curses_calls
        (entered-IsSound s _ 2 h (omega arith) (omega arith) (leave_curses_off s h)))
  run_case-IsSound mode_press p s s' run h = rw (← some_inj run) (
      rw enter_curses_calls
        (entered-IsSound s _ 3 h (omega arith) (omega arith) (enter_curses_on s h)))
  run_case-IsSound mode_timed p s s' run h = rw (← some_inj run) (
      rw enter_curses_calls
        (entered-IsSound s _ 4 h (omega arith) (omega arith) (enter_curses_on s h)))
  run_case-IsSound (move c) p s s' run h = send_packet-IsSound _ _ s' run (get_params-IsSound p s h)
  run_case-IsSound stop p s s' run h = send_packet-IsSound _ s s' run h
  run_case-IsSound clear_stats p s s' run h = send_packet-IsSound _ s s' run h
  run_case-IsSound get_stats p s s' run h = send_packet-IsSound _ s s' run h
  run_case-IsSound color p s s' run h = send_packet-IsSound _ _ s' run (drawn-IsSound s _ h refl)
  run_case-IsSound dist p s s' run h = send_packet-IsSound _ _ s' run (drawn-IsSound s _ h refl)
  run_case-IsSound lcd p s s' run h = send_packet-IsSound _ _ s' run (drawn-IsSound s _ h refl)
  run_case-IsSound help p s s' run h = rw (← some_inj run) (drawn-IsSound s _ h refl)
  run_case-IsSound quit p s s' run h = rw (← some_inj run) (
      rw leave_curses_calls (record {
        speed_ok = h.speed_ok;
        delay_ok = h.delay_ok;
        mode_low = h.mode_low;
        mode_high = h.mode_high;
        screen = inl refl;
      }))
  run_case-IsSound bad p s s' run h = rw (← some_inj run) (drawn-IsSound s _ h refl)

  pub send_command-IsSound :
      (c : ℕ) (s s' : Pi Float) → send_command w c s ≡ some s' → IsSound s → IsSound s'
  unfolding send_command
  send_command-IsSound c s s' run h = run_case-IsSound (case_of c) _ s s' run h
