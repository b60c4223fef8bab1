-- ===== src/Pi/Keys.antt =====
-- `keypressControl` of RPi/alex-pi.cpp: driving while a key is held down.
use cg2111a_b.Base.{
  ℕ, ◌||◌, Bool, true, false, List, [], ◌∷◌, Option, some, none, ◌>>=◌, if◌then◌else◌, ◌==◌,
}
use cg2111a_b.Base.Int.{pos}
use cg2111a_b.Pi.{
  Pi, World, Progress, waits, went, char, int, emit, printf, cout, sdl_init, create_window,
  create_renderer, render_clear, render_present, destroy_renderer, destroy_window, sdl_quit,
}
use cg2111a_b.Pi.Prints.{increase_speedf, decrease_speedf}
use cg2111a_b.Pi.Send.{send_command}

-- `SDL_Event`, as far as the code looks at it.
pub data SdlEvent : Type 0 where
  quit_event : SdlEvent
  key_up : ℕ → SdlEvent
  key_down : ℕ → SdlEvent
  other_event : SdlEvent

abbrev pub left_arrow_key : ℕ
left_arrow_key = 1073741904

abbrev pub right_arrow_key : ℕ
right_arrow_key = 1073741903

-- The locals of the function.
pub record Keys : Type 0 where
  pub quit : Bool
  pub key_already_pressed : Bool
  pub stop : Bool
  pub informed : Bool

abbrev pub no_keys : Keys
no_keys = record { quit = false; key_already_pressed = false; stop = false; informed = false }

-- The keys whose release sends no stop.
abbrev pub is_quiet : ℕ → Bool
is_quiet key =
    key == left_arrow_key
    || (key == right_arrow_key || (key == b'u' || (key == b'k' || key == b'v')))

-- The cases of the switch on a key that goes down.
pub data KeyCase : Type 0 where
  leave slower faster send : KeyCase

abbrev pub key_case : ℕ → KeyCase
key_case key =
    if key == b'1' || (key == b'3' || key == b'4')
    then leave
    else (if key == left_arrow_key
        then slower
        else (if key == right_arrow_key then faster else send))

module _ {Float : Type 0} where
  -- What a poll, a turn of the outer loop, and opening and closing the window do.
  abbrev pub polled : Pi Float → Pi Float
  polled s = record s { clear_to_send_command = true }

  abbrev pub rendered : Pi Float → Pi Float
  rendered s = emit render_present (emit render_clear s)

  abbrev pub opened : Pi Float → Pi Float
  opened s = emit create_renderer (emit create_window (emit sdl_init s))

  abbrev pub closed : Pi Float → Pi Float
  closed s = emit sdl_quit (emit destroy_window (emit destroy_renderer s))

-- `key_name` gives the first character of `SDL_GetKeyName`.
module _ (w : World) (key_name : ℕ → ℕ) where
  open w use {Float}

  unfoldable pub on_key_up : ℕ → Keys → Pi Float → Option (Keys × Pi Float)
  on_key_up key k s =
      let released = record k { key_already_pressed = false } in
      let stopped = (do
        s' ← send_command w b'o' (emit (cout "car stopped\n") s)
        some (released, s')) in
      if k.key_already_pressed
      then (if is_quiet key then some (released, s) else stopped)
      else some (k, s)

  unfoldable pub run_key : KeyCase → ℕ → Keys → Pi Float → Option (Keys × Pi Float)
  unfolding decrease_speedf increase_speedf
  run_key leave key k s =
      some (record k { quit = true; stop = true }, record s { keyboard_mode = 1 })
  run_key slower key k s = some (k, decrease_speedf s)
  run_key faster key k s = some (k, increase_speedf s)
  run_key send key k s = do
    s' ←
        send_command w (key_name key)
          (emit (printf "send command : %c\n" (char (key_name key) ∷ [])) s)
    some (k, s')

  unfoldable pub on_key_down : ℕ → Keys → Pi Float → Option (Keys × Pi Float)
  unfolding run_key
  on_key_down key k s =
      let shown =
        emit
          (printf "clear to send command : %d\n"
            (int (pos (if s.clear_to_send_command then 1 else 0)) ∷ []))
          s in
      let taken =
        run_key (key_case key) key (record k { key_already_pressed = true; informed = false })
          shown in
      let refused =
        if k.informed
        then some (k, shown)
        else some (
          record k { informed = true },
          emit (printf "cannot send command.Please release and press again" []) shown,
        ) in
      if k.key_already_pressed
      then some (k, s)
      else (if s.clear_to_send_command then taken else refused)

  -- The body of the loop over `SDL_PollEvent`.
  unfoldable pub on_event : SdlEvent → Keys → Pi Float → Option (Keys × Pi Float)
  unfolding on_key_up on_key_down
  on_event quit_event k s = some (record k { quit = true }, polled s)
  on_event (key_up key) k s = on_key_up key k (polled s)
  on_event (key_down key) k s = on_key_down key k (polled s)
  on_event other_event k s = some (k, polled s)

  -- The two loops; the inputs are the results of the calls of `SDL_PollEvent`, `none` when there
  -- was no event. An event that is polled when `stop` is set is dropped.
  unfoldable pub hold_loop :
      List (Option SdlEvent) → Keys → Pi Float → Option (Progress (Option SdlEvent) Float)
  unfolding on_event
  hold_loop [] k s = some waits
  hold_loop (none ∷ polls) k s =
      let again = hold_loop polls k (rendered s) in
      if k.quit then some (went polls (closed (rendered s))) else again
  hold_loop (some e ∷ polls) k s =
      let again = hold_loop polls k (rendered s) in
      let ended = if k.quit then some (went polls (closed (rendered s))) else again in
      let handled = on_event e k s >>= λ r. hold_loop polls r.0 r.1 in
      if k.stop then ended else handled

  unfoldable pub keypress_control :
      List (Option SdlEvent) → Pi Float → Option (Progress (Option SdlEvent) Float)
  unfolding hold_loop
  keypress_control polls s = hold_loop polls no_keys (opened s)
