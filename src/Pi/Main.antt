-- ===== src/Pi/Main.antt =====
-- `main` of RPi/alex-pi.cpp: the greeting, the loop over the four controls, and the threads.
use cg2111a_b.Base.{[], true, false, ℕ, List, Option, some, none, ◌>>=◌, if◌then◌else◌, ◌==◌}
use cg2111a_b.Pi.{Pi, World, Progress, waits, went, packet_type_hello, emit, printf, sleep}
use cg2111a_b.Base.Int.{pos}
use cg2111a_b.Pi.Serial.{Ports, start_serial, end_serial}
use cg2111a_b.Pi.Send.{send_packet}
use cg2111a_b.Pi.Control.{params_control, press_and_press, timed_movement}
use cg2111a_b.Pi.Keys.{SdlEvent, keypress_control}

-- What the three kinds of reading give.
pub record Inputs : Type 0 where
  pub chars : List ℕ
  pub presses : List (Option ℕ)
  pub polls : List (Option SdlEvent)

-- The globals as RPi/alex-pi.cpp and RPi/serial.cpp initialise them.
abbrev pub globals : {Float : Type 0} → Pi Float
globals = record {
  fd = pos 0;
  exit_flag = false;
  commands_sent = 0;
  speed = pos 40;
  delay_time = pos 150;
  clear_to_send_command = true;
  keyboard_mode = 1;
  previous_command = b'0';
  calls = [];
}

module _ (w : World) where
  open w use {Float, stack}

  unfoldable pub send_hello : Pi Float → Option (Pi Float)
  send_hello s = send_packet w (record ((stack s).packet) { packet_type = packet_type_hello }) s

  -- `main` up to its loop. The port is set up for 9600 baud, 8 data bits, no parity and one stop
  -- bit, in at most 5 attempts.
  unfoldable pub boot : Ports → Pi Float → Option (Pi Float)
  unfolding start_serial send_hello
  boot d s =
      let s1 = start_serial d 9600 8 b'N' 1 5 s in
      let s2 = emit (printf "WAITING TWO SECONDS FOR ARDUINO TO REBOOT\n" []) s1 in
      send_hello (emit (printf "DONE\n" []) (emit (sleep 2) s2))

  -- `main` after its loop.
  unfoldable pub shut_down : Pi Float → Pi Float
  unfolding end_serial
  shut_down s = end_serial (emit (printf "Closing connection to Arduino.\n" []) s)

module _ (w : World) (key_name : ℕ → ℕ) where
  open w use {Float}

  abbrev pub resumed :
      {A : Type 0} → (List A → Inputs) → Progress A Float → Option (Inputs × Pi Float)
  resumed f waits = none
  resumed f (went rest s) = some (f rest, s)

  -- One turn of `while(!exitFlag)`: `none` inside is a control that waits for input.
  unfoldable pub control_turn : Inputs → Pi Float → Option (Option (Inputs × Pi Float))
  control_turn i s =
      let by_char : Option (Option (Inputs × Pi Float)) =
        params_control w i.chars s >>= λ r. some (resumed (λ rest. record i { chars = rest }) r) in
      let by_hold : Option (Option (Inputs × Pi Float)) =
        keypress_control w key_name i.polls s >>= λ r.
        some (resumed (λ rest. record i { polls = rest }) r) in
      let by_press : Option (Option (Inputs × Pi Float)) = press_and_press w i.presses s >>= λ r.
      some (resumed (λ rest. record i { presses = rest }) r) in
      let by_time : Option (Option (Inputs × Pi Float)) = timed_movement w i.presses s >>= λ r.
      some (resumed (λ rest. record i { presses = rest }) r) in
      if s.keyboard_mode == 1
      then by_char
      else (if s.keyboard_mode == 2
          then by_hold
          else (if s.keyboard_mode == 3
              then by_press
              else (if s.keyboard_mode == 4 then by_time else some (some (i, s)))))
