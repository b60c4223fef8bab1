-- ===== src/Pi/Defined.antt =====
-- No turn of `main` (RPi/alex-pi.cpp) faults: whatever is typed or pressed, every packet fits.
use cg2111a_b.Base.{
  ℕ, ◌≡◌, refl, List, [], ◌∷◌, Option, some, none, ◌>>=◌, String, ◌==◌, ◌&&◌, not, Bool-cases, inl,
  inr, Gives, Gives-if, Gives->>=, Gives-of, Gives-result, ◌%◌,
}
use cg2111a_b.Base.Int.{pos, ◌≤ℤ◌, ◌+ℤ◌, ◌-ℤ◌, leb_ℤ, ltb_ℤ, eqb_ℤ}
use cg2111a_b.Pi.{Pi, Arg, Event, World, Progress, waits, went}
use cg2111a_b.Pi.Prints.{
  increase_speedw, decrease_speedw, increase_speedf, decrease_speedf, increase_delay,
  decrease_delay, refresh_screen, raise_speed, lower_speed,
}
use cg2111a_b.Pi.Send.{send_command}
use cg2111a_b.Pi.Control.{
  params_control, pressed, timed, wait_press, wait_key, press_and_press, timed_movement,
}
use cg2111a_b.Pi.Keys.{
  SdlEvent, quit_event, key_up, key_down, other_event, Keys, no_keys, KeyCase, leave, slower,
  faster, send, is_quiet, key_case, on_key_up, on_key_down, run_key, on_event, hold_loop,
  keypress_control, rendered, opened,
}
use cg2111a_b.Pi.Main.{Inputs, control_turn, resumed}
use cg2111a_b.Pi.Params.{IsStack}
use cg2111a_b.Pi.Requests.{send_command-Effect}

-- The port is open.
abbrev pub IsOpen : {Float : Type 0} → Pi Float → Type 0
IsOpen s = pos 0 ≤ℤ s.fd

abbrev IsOpenAfter : {A Float : Type 0} → Progress A Float → Type 0
IsOpenAfter waits = Unit
IsOpenAfter (went rest s) = IsOpen s

abbrev pub IsOpenTurn : {Float : Type 0} → Option (Inputs × Pi Float) → Type 0
IsOpenTurn none = Unit
IsOpenTurn (some r) = IsOpen r.1

module _ {Float : Type 0} where
  raise_speed_port :
      (say : String → List (Arg Float) → Event Float) (s : Pi Float) → (raise_speed say s).fd ≡ s.fd
  unfolding raise_speed
  raise_speed_port say s = elim (Bool-cases (leb_ℤ (s.speed +ℤ pos 5) (pos 100))) [
    | inl e ↦ rw e refl
    | inr e ↦ rw e refl
  ]

  lower_speed_port :
      (say : String → List (Arg Float) → Event Float) (s : Pi Float) → (lower_speed say s).fd ≡ s.fd
  unfolding lower_speed
  lower_speed_port say s = elim (Bool-cases (eqb_ℤ s.speed (pos 0))) [
    | inl e ↦ rw e refl
    | inr e ↦ rw e refl
  ]

  decrease_delay_port : (s : Pi Float) → (decrease_delay s).fd ≡ s.fd
  unfolding decrease_delay
  decrease_delay_port s = elim (Bool-cases (ltb_ℤ (s.delay_time -ℤ pos 50) (pos 0))) [
    | inl e ↦ rw e refl
    | inr e ↦ rw e refl
  ]

  refresh_screen_port : (s : Pi Float) → (refresh_screen s).fd ≡ s.fd
  unfolding refresh_screen
  refresh_screen_port s =
      elim (Bool-cases (not (s.commands_sent == 0) && (s.commands_sent % 5 == 0))) [
        | inl e ↦ rw e refl
        | inr e ↦ rw e refl
      ]

module _ (w : World) (stacks : (s : Pi w.Float) → IsStack (w.stack s)) where
  open w use {Float}

  send_command-Gives : (c : ℕ) (s : Pi Float) → IsOpen s → Gives IsOpen (send_command w c s)
  send_command-Gives c s port =
      let (s', sent, _, same) = send_command-Effect w stacks c s port in
      Gives-of IsOpen (send_command w c s) s' sent (rw same port)

  params_control-Gives :
      (chars : List ℕ) (s : Pi Float) → IsOpen s → Gives IsOpenAfter (params_control w chars s)
  unfolding params_control
  params_control-Gives [] s port = tt
  params_control-Gives (ch ∷ chars) s port =
      Gives->>= IsOpen IsOpenAfter (send_command w ch _) _ (send_command-Gives ch _ port)
        (λ s' h. h)

  pressed-Gives : (ch : ℕ) (s : Pi Float) → IsOpen s → Gives IsOpen (pressed w ch s)
  unfolding pressed increase_speedw decrease_speedw
  pressed-Gives ch s0 port0 =
      let port : IsOpen (refresh_screen s0) = rw refresh_screen_port port0 in
      Gives-if IsOpen (ch == b',') _ _ (rw lower_speed_port port) (
        Gives-if IsOpen (ch == b'.') _ _ (rw raise_speed_port port) (
          Gives->>= IsOpen IsOpen (send_command w ch _) _ (send_command-Gives ch _ port)
            (λ s' h. h)))

  timed-Gives : (ch : ℕ) (s : Pi Float) → IsOpen s → Gives IsOpen (timed w ch s)
  unfolding timed increase_delay
  timed-Gives ch s0 port0 =
      let port : IsOpen (refresh_screen s0) = rw refresh_screen_port port0 in
      Gives->>= IsOpen IsOpen _ _
        (Gives-if IsOpen (ch == b',') _ _ (rw decrease_delay_port port)
          (Gives-if IsOpen (ch == b'.') _ _ port (send_command-Gives ch _ port)))
        (λ s' h. h)

  waited-Gives :
      (o : Option (ℕ × List (Option ℕ))) (f : ℕ → Option (Pi Float))
      → ((ch : ℕ) → Gives IsOpen (f ch))
      → Gives IsOpenAfter
          (elim o [ none ↦ some waits | some (ch, keys) ↦ f ch >>= λ s'. some (went keys s') ])
  waited-Gives none f h = tt
  waited-Gives (some (ch, keys)) f h = Gives->>= IsOpen IsOpenAfter (f ch) _ (h ch) (λ s' k. k)

  module _ (key_name : ℕ → ℕ) where
    abbrev OpenKeys : Keys × Pi Float → Type 0
    OpenKeys r = IsOpen r.1

    run_key-Gives :
        (kc : KeyCase) (key : ℕ) (k : Keys) (s : Pi Float)
        → IsOpen s
        → Gives OpenKeys (run_key w key_name kc key k s)
    unfolding run_key increase_speedf decrease_speedf
    run_key-Gives leave key k s port = port
    run_key-Gives slower key k s port = rw lower_speed_port port
    run_key-Gives faster key k s port = rw raise_speed_port port
    run_key-Gives send key k s port =
        Gives->>= IsOpen OpenKeys (send_command w _ _) _ (send_command-Gives _ _ port) (λ s' h. h)

    on_key_up-Gives :
        (key : ℕ) (k : Keys) (s : Pi Float)
        → IsOpen s
        → Gives OpenKeys (on_key_up w key_name key k s)
    unfolding on_key_up
    on_key_up-Gives key k s port =
        Gives-if OpenKeys k.key_already_pressed _ _
          (Gives-if OpenKeys (is_quiet key) _ _ port (
            Gives->>= IsOpen OpenKeys (send_command w _ _) _ (send_command-Gives _ _ port)
              (λ s' h. h)))
          port

    on_key_down-Gives :
        (key : ℕ) (k : Keys) (s : Pi Float)
        → IsOpen s
        → Gives OpenKeys (on_key_down w key_name key k s)
    unfolding on_key_down
    on_key_down-Gives key k s port = Gives-if OpenKeys k.key_already_pressed _ _ port (
        Gives-if OpenKeys s.clear_to_send_command _ _ (run_key-Gives (key_case key) key _ _ port)
          (Gives-if OpenKeys k.informed _ _ port port))

    on_event-Gives :
        (e : SdlEvent) (k : Keys) (s : Pi Float)
        → IsOpen s
        → Gives OpenKeys (on_event w key_name e k s)
    unfolding on_event
    on_event-Gives quit_event k s port = port
    on_event-Gives (key_up key) k s port = on_key_up-Gives key k _ port
    on_event-Gives (key_down key) k s port = on_key_down-Gives key k _ port
    on_event-Gives other_event k s port = port

    hold_loop-Gives :
        (polls : List (Option SdlEvent)) (k : Keys) (s : Pi Float)
        → IsOpen s
        → Gives IsOpenAfter (hold_loop w key_name polls k s)
    unfolding hold_loop
    hold_loop-Gives [] k s port = tt
    hold_loop-Gives (none ∷ polls) k s port =
        Gives-if IsOpenAfter k.quit _ _ port (hold_loop-Gives polls k (rendered s) port)
    hold_loop-Gives (some e ∷ polls) k s port =
        Gives-if IsOpenAfter k.stop _ _
          (Gives-if IsOpenAfter k.quit _ _ port (hold_loop-Gives polls k (rendered s) port))
          (Gives->>= OpenKeys IsOpenAfter (on_event w key_name e k s) _ (on_event-Gives e k s port)
            (λ r h. hold_loop-Gives polls r.0 r.1 h))

    resumed-Gives :
        {A : Type 0} (f : List A → Inputs) (o : Option (Progress A Float))
        → Gives IsOpenAfter o
        → Gives IsOpenTurn (o >>= λ r. some (resumed w key_name f r))
    resumed-Gives f none h = absurd h
    resumed-Gives f (some waits) h = tt
    resumed-Gives f (some (went rest s)) h = h

    -- A turn of `main` with the port open never faults, whatever is typed, pressed or polled: it
    -- waits for input, or it goes through and leaves the port open. The uninitialised locals have
    -- the sizes of their types.
    pub control_turn_defined :
        (i : Inputs) (s : Pi Float)
        → IsOpen s
        → (r : Option (Inputs × Pi Float)) × (control_turn w key_name i s ≡ some r) × IsOpenTurn r
    unfolding control_turn keypress_control press_and_press timed_movement
    control_turn_defined i s port = Gives-result IsOpenTurn (control_turn w key_name i s) (
        Gives-if IsOpenTurn (s.keyboard_mode == 1) _ _
          (resumed-Gives _ _ (params_control-Gives i.chars s port))
          (Gives-if IsOpenTurn (s.keyboard_mode == 2) _ _
            (resumed-Gives _ _ (hold_loop-Gives i.polls no_keys (opened s) port))
            (Gives-if IsOpenTurn (s.keyboard_mode == 3) _ _
              (resumed-Gives _ _ (
                waited-Gives (wait_press s.previous_command i.presses) (λ c. pressed w c s)
                  (λ c. pressed-Gives c s port)))
              (Gives-if IsOpenTurn (s.keyboard_mode == 4) _ _
                (resumed-Gives _ _ (
                  waited-Gives (wait_key i.presses) (λ c. timed w c s) (λ c. timed-Gives c s port)))
                port))))
