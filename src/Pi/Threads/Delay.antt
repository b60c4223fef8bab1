-- ===== src/Pi/Threads/Delay.antt =====
-- How far the delay of RPi/prints.cpp gets in a number of turns of the threads of RPi/alex-pi.cpp
-- and RPi/usart.cpp.
use cg2111a_b.Base.{
  ◌%◌, String, false, ℕ, zero, suc, ◌≡◌, some, ◌>>=◌, >>=-eq-some, Bool-cases, inl, inr, [], ◌∷◌,
  List, Ensures, Ensures-if, Ensures->>=, Ensures-of, if-holds, ◌==◌, ◌||◌, ◌&&◌, not,
}
use cg2111a_b.Base.Int.{ℤ, pos, negsuc, ◌+ℤ◌, ◌-ℤ◌, leb_ℤ, ltb_ℤ, eqb_ℤ}
use cg2111a_b.Packet.{Packet}
use cg2111a_b.Serialize.{serialize}
use cg2111a_b.Pi.{Pi, World, Event, Arg, printf, printw, went}
use cg2111a_b.Pi.Prints.{
  increase_speedw, decrease_speedw, increase_speedf, decrease_speedf, raise_speed, lower_speed,
  increase_delay, decrease_delay, refresh_screen,
}
use cg2111a_b.Pi.Serial.{serial_write, Ports, connect, start_serial}
use cg2111a_b.Pi.Main.{globals, boot, send_hello}
use cg2111a_b.Pi.Send.{
  Case, mode_params, mode_hold, mode_press, mode_timed, move, stop, clear_stats, get_stats, color,
  dist, lcd, help, quit, bad, case_of, send_packet, get_params, run_case, send_command,
}
use cg2111a_b.Pi.Control.{params_control, prompted, pressed, timed, counted}
use cg2111a_b.Pi.Keys.{
  SdlEvent, quit_event, key_up, key_down, other_event, Keys, KeyCase, leave, slower, faster, send,
  is_quiet, key_case, on_key_up, on_key_down, run_key, on_event,
}
use cg2111a_b.Pi.Sound.{some_inj, leave_curses_calls, enter_curses_calls}

-- What holds of the delay, and goes on holding of it.
module _ (w : World) (P : ℤ → Type 0) where
  open w use {Float}

  abbrev Has : Pi Float → Type 0
  Has s = P s.delay_time

  serial_write-Has : (bytes : List ℕ) (s : Pi Float) → Has s → Has (serial_write bytes s)
  unfolding serial_write
  serial_write-Has bytes s h = if-holds Has (leb_ℤ (pos 0) s.fd) _ _ (λ e. h) (λ e. h)

  pub send_packet-Has :
      (p : Packet) (s s' : Pi Float) → send_packet w p s ≡ some s' → Has s → Has s'
  unfolding send_packet
  send_packet-Has p s s' run h =
      let (r, _, e) = >>=-eq-some (serialize _ _ _ _) _ run in
      let same : serial_write r.0 s ≡ s' = cc in rw (← same) (serial_write-Has r.0 s h)

  get_params-Has : (p : Packet) (s : Pi Float) → Has s → Has (get_params w p s).1
  unfolding get_params
  get_params-Has p s h = elim (Bool-cases (s.keyboard_mode == 1)) [
    | inl e ↦ rw e h
    | inr e ↦ rw e (elim (Bool-cases (s.keyboard_mode == 2 || s.keyboard_mode == 3)) [
      | inl f ↦ rw f h
      | inr f ↦ rw f (elim (Bool-cases (s.keyboard_mode == 4)) [ inl g ↦ rw g h | inr g ↦ rw g h ])
    ])
  ]

  run_case-Has :
      (k : Case) (p : Packet) (s s' : Pi Float) → run_case w k p s ≡ some s' → Has s → Has s'
  unfolding run_case
  run_case-Has mode_params p s s' run h = rw (← some_inj run) (rw leave_curses_calls h)
  run_case-Has mode_hold p s s' run h = rw (← some_inj run) (rw leave_curses_calls h)
  run_case-Has mode_press p s s' run h = rw (← some_inj run) (rw enter_curses_calls h)
  run_case-Has mode_timed p s s' run h = rw (← some_inj run) (rw enter_curses_calls h)
  run_case-Has (move c) p s s' run h = send_packet-Has _ _ s' run (get_params-Has p s h)
  run_case-Has stop p s s' run h = send_packet-Has _ s s' run h
  run_case-Has clear_stats p s s' run h = send_packet-Has _ s s' run h
  run_case-Has get_stats p s s' run h = send_packet-Has _ s s' run h
  run_case-Has color p s s' run h = send_packet-Has _ _ s' run h
  run_case-Has dist p s s' run h = send_packet-Has _ _ s' run h
  run_case-Has lcd p s s' run h = send_packet-Has _ _ s' run h
  run_case-Has help p s s' run h = rw (← some_inj run) h
  run_case-Has quit p s s' run h = rw (← some_inj run) (rw leave_curses_calls h)
  run_case-Has bad p s s' run h = rw (← some_inj run) h

  send_command-Has : (c : ℕ) (s s' : Pi Float) → send_command w c s ≡ some s' → Has s → Has s'
  unfolding send_command
  send_command-Has c s s' run h = run_case-Has (case_of c) _ s s' run h

  pub params_control-Has :
      (chars rest : List ℕ) (s s' : Pi Float)
      → params_control w chars s ≡ some (went rest s')
      → Has s
      → Has s'
  unfolding params_control
  params_control-Has [] rest s s' run h = cc
  params_control-Has (ch ∷ chars) rest s s' run h =
      let (t, sent, e) = >>=-eq-some (send_command w ch (prompted w ch s)) _ run in
      let same : t ≡ s' = cc in rw (← same) (send_command-Has ch (prompted w ch s) t sent h)

  refresh_screen-Has : (s : Pi Float) → Has s → Has (refresh_screen s)
  unfolding refresh_screen
  refresh_screen-Has s h =
      if-holds Has (not (s.commands_sent == 0) && (s.commands_sent % 5 == 0)) _ _ (λ e. h) (λ e. h)

  sent-Has :
      {A : Type 0} (c : ℕ) (s : Pi Float) (f : Pi Float → A) (Q : A → Type 0)
      → Has s
      → ((s' : Pi Float) → Has s' → Q (f s'))
      → Ensures Q (send_command w c s >>= λ s'. some (f s'))
  sent-Has c s f Q h k =
      Ensures->>= Has Q (send_command w c s) _
        (Ensures-of Has (send_command w c s) (λ s' run. send_command-Has c s s' run h)) k

  raise_speed-Has :
      (say : String → List (Arg Float) → Event Float) (s : Pi Float)
      → Has s
      → Has (raise_speed say s)
  unfolding raise_speed
  raise_speed-Has say s h = if-holds Has (leb_ℤ (s.speed +ℤ pos 5) (pos 100)) _ _ (λ e. h) (λ e. h)

  lower_speed-Has :
      (say : String → List (Arg Float) → Event Float) (s : Pi Float)
      → Has s
      → Has (lower_speed say s)
  unfolding lower_speed
  lower_speed-Has say s h = if-holds Has (eqb_ℤ s.speed (pos 0)) _ _ (λ e. h) (λ e. h)

  pub pressed-Has : (ch : ℕ) (s : Pi Float) → Has s → Ensures Has (pressed w ch s)
  unfolding pressed increase_speedw decrease_speedw
  pressed-Has ch s0 h0 =
      let s = refresh_screen s0 in
      let h = refresh_screen-Has s0 h0 in
      Ensures-if Has (ch == b',') (some (counted w (decrease_speedw s))) _
        (lower_speed-Has printw s h)
        (Ensures-if Has (ch == b'.') (some (counted w (increase_speedw s))) _
          (raise_speed-Has printw s h) (sent-Has ch _ _ Has h (λ s' k. k)))

  module _ (key_name : ℕ → ℕ) where
    abbrev Kept : Keys × Pi Float → Type 0
    Kept r = Has r.1

    run_key-Has :
        (kc : KeyCase) (key : ℕ) (k : Keys) (s : Pi Float)
        → Has s
        → Ensures Kept (run_key w key_name kc key k s)
    unfolding run_key increase_speedf decrease_speedf
    run_key-Has leave key k s h = h
    run_key-Has slower key k s h = lower_speed-Has printf s h
    run_key-Has faster key k s h = raise_speed-Has printf s h
    run_key-Has send key k s h = sent-Has (key_name key) _ (λ s'. (k, s')) Kept h (λ s' k'. k')

    on_key_up-Has :
        (key : ℕ) (k : Keys) (s : Pi Float) → Has s → Ensures Kept (on_key_up w key_name key k s)
    unfolding on_key_up
    on_key_up-Has key k s h =
        Ensures-if Kept k.key_already_pressed _ _
          (Ensures-if Kept (is_quiet key) _ _ h (
            sent-Has b'o' _ (λ s'. (record k { key_already_pressed = false }, s')) Kept h
              (λ s' k'. k')))
          h

    on_key_down-Has :
        (key : ℕ) (k : Keys) (s : Pi Float) → Has s → Ensures Kept (on_key_down w key_name key k s)
    unfolding on_key_down
    on_key_down-Has key k s h = Ensures-if Kept k.key_already_pressed _ _ h (
        Ensures-if Kept s.clear_to_send_command _ _ (run_key-Has (key_case key) key _ _ h)
          (Ensures-if Kept k.informed _ _ h h))

    pub on_event-Has :
        (e : SdlEvent) (k : Keys) (s : Pi Float) → Has s → Ensures Kept (on_event w key_name e k s)
    unfolding on_event
    on_event-Has quit_event k s h = h
    on_event-Has (key_up key) k s h = on_key_up-Has key k _ h
    on_event-Has (key_down key) k s h = on_key_down-Has key k _ h
    on_event-Has other_event k s h = h

  connect-Has :
      (d : Ports) (max left made : ℕ) (s : Pi Float) → Has s → Has (connect d max left made s)
  unfolding connect
  connect-Has d max zero made s h = h
  connect-Has d max (suc left) made s h = elim (Bool-cases (ltb_ℤ s.fd (pos 0))) [
    | inl e ↦ rw e (elim (Bool-cases (ltb_ℤ (d.open_port (suc made)) (pos 0))) [
      | inl refused ↦ rw refused (connect-Has d max left (suc made) _ h)
      | inr opened ↦ rw opened (connect-Has d max left (suc made) _ h)
    ])
    | inr e ↦ rw e h
  ]

  start_serial-Has :
      (d : Ports) (baud byte_size parity stop_bits max : ℕ) (s : Pi Float)
      → Has s
      → Has (start_serial d baud byte_size parity stop_bits max s)
  unfolding start_serial
  start_serial-Has d baud byte_size parity stop_bits max s h =
      let tried = connect-Has d max max 0 (record s { fd = negsuc 0 }) h in
      if-holds Has (ltb_ℤ (connect d max max 0 (record s { fd = negsuc 0 })).fd (pos 0)) _ _
        (λ e. tried) (λ e. tried)

  pub boot-Has : (d : Ports) (s : Pi Float) → boot w d globals ≡ some s → P (pos 150) → Has s
  unfolding boot send_hello
  boot-Has d s run h = send_packet-Has _ _ s run (start_serial-Has d 9600 8 b'N' 1 5 globals h)

module _ (w : World) (P Q : ℤ → Type 0) (kept : (z : ℤ) → P z → Q z) where
  open w use {Float}

  -- A turn of `TimedMovement` may also raise or lower it.
  pub timed-Has :
      (ch : ℕ) (s : Pi Float)
      → ((z : ℤ) → P z → Q (z +ℤ pos 50))
      → ((z : ℤ) → P z → ltb_ℤ (z -ℤ pos 50) (pos 0) ≡ false → Q (z -ℤ pos 50))
      → Q (pos 0)
      → P s.delay_time
      → Ensures (λ (s' : Pi Float). Q s'.delay_time) (timed w ch s)
  unfolding timed increase_delay decrease_delay
  timed-Has ch s0 longer shorter none h0 =
      let Later = λ (s' : Pi Float). Q s'.delay_time in
      let s = refresh_screen s0 in
      let h = refresh_screen-Has w P s0 h0 in
      Ensures->>= Later Later _ _
        (Ensures-if Later (ch == b',') (some (decrease_delay s)) _
          (if-holds Later (ltb_ℤ (s.delay_time -ℤ pos 50) (pos 0)) _ _ (λ e. none)
            (λ e. shorter s.delay_time h e))
          (Ensures-if Later (ch == b'.') (some (increase_delay s)) _ (longer s.delay_time h) (
            Ensures-of Later _
              (λ s' run. kept s'.delay_time (send_command-Has w P ch _ s' run h)))))
        (λ s' k. k)
