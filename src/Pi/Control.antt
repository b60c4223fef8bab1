-- ===== src/Pi/Control.antt =====
-- The three controls of RPi/alex-pi.cpp that read one character at a time: `paramsControl`,
-- `PressAndPress` and `TimedMovement`.
use cg2111a_b.Base.{
  ℕ, ◌+◌, ◌&&◌, not, List, [], ◌∷◌, Option, some, none, ◌>>=◌, if◌then◌else◌, ◌==◌,
}
use cg2111a_b.Pi.{Pi, World, Progress, waits, went, char, emit, printf, printw, refresh, sleep}
use cg2111a_b.Pi.Prints.{
  printf_commands, increase_speedw, decrease_speedw, increase_delay, decrease_delay, refresh_screen,
}
use cg2111a_b.Pi.Send.{send_command}

-- What the loops over `getch` wait for: `none` is `ERR`. The result has the character and the
-- calls of `getch` that are still to come; without one the loop waits.
unfoldable pub wait_press : ℕ → List (Option ℕ) → Option (ℕ × List (Option ℕ))
wait_press previous [] = none
wait_press previous (none ∷ keys) = wait_press previous keys
wait_press previous (some c ∷ keys) =
    let rest = wait_press previous keys in
    if (c == previous)
      && (not (c == b',') && (not (c == b'.') && (not (c == b'v') && not (c == b'u'))))
    then rest
    else some (c, keys)

unfoldable pub wait_key : List (Option ℕ) → Option (ℕ × List (Option ℕ))
wait_key [] = none
wait_key (none ∷ keys) = wait_key keys
wait_key (some c ∷ keys) = some (c, keys)

module _ (w : World) where
  open w use {Float}

  abbrev pub counted : Pi Float → Pi Float
  counted s = record s { commands_sent = s.commands_sent + 1 }

  abbrev pub prompted : ℕ → Pi Float → Pi Float
  prompted ch s =
      emit (printf "send command : %c\n" (char ch ∷ []))
        (emit (printf "Mode: 1=param control, 2=keyboard control\n" []) (printf_commands s))

  -- `paramsControl`; the inputs are the characters that `scanf("%c", &ch)` reads.
  unfoldable pub params_control : List ℕ → Pi Float → Option (Progress ℕ Float)
  unfolding printf_commands
  params_control [] s = some waits
  params_control (ch ∷ chs) s = do s' ← send_command w ch (prompted ch s); some (went chs s')

  -- `PressAndPress`, from the character on.
  unfoldable pub pressed : ℕ → Pi Float → Option (Pi Float)
  unfolding decrease_speedw increase_speedw refresh_screen
  pressed ch s0 =
      let s = refresh_screen s0 in
      let sent = (do
        s' ← send_command w ch (emit refresh (emit (printw "send command : %c\n" (char ch ∷ [])) s))
        some (counted (record s' { previous_command = ch }))) in
      if ch == b','
      then some (counted (decrease_speedw s))
      else (if ch == b'.' then some (counted (increase_speedw s)) else sent)

  unfoldable pub press_and_press : List (Option ℕ) → Pi Float → Option (Progress (Option ℕ) Float)
  unfolding wait_press pressed
  press_and_press keys s = elim (wait_press s.previous_command keys) [
    | none ↦ some waits
    | some (ch, keys') ↦ pressed ch s >>= λ s'. some (went keys' s')
  ]

  -- `TimedMovement`, from the character on.
  unfoldable pub timed : ℕ → Pi Float → Option (Pi Float)
  unfolding decrease_delay increase_delay refresh_screen
  timed ch s0 =
      let s = refresh_screen s0 in
      let sent = send_command w ch (emit (printw "send command : %c\n" (char ch ∷ [])) s) in
      do
        s' ←
            if ch == b','
            then some (decrease_delay s)
            else (if ch == b'.' then some (increase_delay s) else sent)
        some (counted (emit (sleep 1) (emit refresh s')))

  unfoldable pub timed_movement : List (Option ℕ) → Pi Float → Option (Progress (Option ℕ) Float)
  unfolding wait_key timed
  timed_movement keys s = elim (wait_key keys) [
    | none ↦ some waits
    | some (ch, keys') ↦ timed ch s >>= λ s'. some (went keys' s')
  ]
