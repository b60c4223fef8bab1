-- ===== src/Pi/Threads/Turns.antt =====
-- What a turn of the loop of `main` (RPi/alex-pi.cpp) keeps, as a chain of turns of the main
-- thread.
use cg2111a_b.Base.{
  ℕ, ◌≡◌, ◌≢◌, refl, List, [], ◌∷◌, Option, some, none, none≢some, ◌>>=◌, >>=-eq-some, false,
  if◌then◌else◌, ◌==◌, ==_iff, if-cases, inl, inr, arith,
}
use cg2111a_b.Pi.{Pi, World, Progress, waits, went}
use cg2111a_b.Pi.Control.{
  params_control, pressed, timed, wait_press, wait_key, press_and_press, timed_movement,
}
use cg2111a_b.Pi.Keys.{
  SdlEvent, Keys, no_keys, on_event, hold_loop, keypress_control, rendered, opened, closed,
}
use cg2111a_b.Pi.Main.{Inputs, control_turn, resumed}
use cg2111a_b.Pi.Sound.{some_inj, IsSound}
use cg2111a_b.Pi.Threads.Holding.{AreNames}
use cg2111a_b.Pi.Threads.Invariant.{Reach-Good}
use cg2111a_b.Pi.Threads.{
  Config, between, holding, Step, typed, press, adjust, open_window, event, draw, close_window,
  Reach, here, further, joined,
}

module _ (w : World) (key_name : ℕ → ℕ) where
  open w use {Float}

  waits_ne : {A : Type 0} (rest : List A) (s : Pi Float) → waits ≢ went rest s
  waits_ne rest s h = ground arith

  one : {c d : Config Float} → Step w key_name c d → Reach w key_name c d
  one {c} {d} step = further c d here step

  ended-Reach :
      (polls rest : List (Option SdlEvent)) (k : Keys) (s s' : Pi Float)
      → (if k.quit
          then some (went polls (closed (rendered s)))
          else hold_loop w key_name polls k (rendered s))
        ≡ some (went rest s')
      → ((t : Pi Float)
          → hold_loop w key_name polls k t ≡ some (went rest s')
          → Reach w key_name (holding k t) (between s'))
      → Reach w key_name (holding k s) (between s')
  ended-Reach polls rest k s s' run again = elim (if-cases k.quit _ _ _ run) [
    | inl (e, gone) ↦
        let same : closed (rendered s) ≡ s' = cc in rw (← same) (one (close_window k s e))
    | inr (e, rest_run) ↦ joined w key_name (one (draw k s e)) (again (rendered s) rest_run)
  ]

  hold_loop-Reach :
      (polls rest : List (Option SdlEvent)) (k : Keys) (s s' : Pi Float)
      → hold_loop w key_name polls k s ≡ some (went rest s')
      → Reach w key_name (holding k s) (between s')
  unfolding hold_loop
  hold_loop-Reach [] rest k s s' run = absurd (waits_ne rest s' (some_inj run))
  hold_loop-Reach (none ∷ polls) rest k s s' run =
      ended-Reach polls rest k s s' run (λ t. hold_loop-Reach polls rest k t s')
  hold_loop-Reach (some e ∷ polls) rest k s s' run = elim (if-cases k.stop _ _ _ run) [
    | inl (_, ended) ↦ ended-Reach polls rest k s s' ended (λ t. hold_loop-Reach polls rest k t s')
    | inr (going, handled) ↦
        let ((k', t), step, rest_run) = >>=-eq-some (on_event w key_name e k s) _ handled in
        joined w key_name (one (event e k k' s t going step))
          (hold_loop-Reach polls rest k' t s' rest_run)
  ]

  resumed_went :
      {A : Type 0} (f : List A → Inputs) (o : Option (Progress A Float)) (i' : Inputs)
      (s' : Pi Float)
      → (o >>= λ r. some (resumed w key_name f r)) ≡ some (some (i', s'))
      → (rest : List A) × (o ≡ some (went rest s'))
  resumed_went f none i' s' run = absurd (none≢some run)
  resumed_went f (some waits) i' s' run = absurd (none≢some (some_inj run))
  resumed_went f (some (went rest s)) i' s' run = let same : s ≡ s' = cc in (rest, rw same refl)

  typed-Reach :
      (chars rest : List ℕ) (s s' : Pi Float)
      → s.exit_flag ≡ false
      → s.keyboard_mode ≡ 1
      → params_control w chars s ≡ some (went rest s')
      → Reach w key_name (between s) (between s')
  typed-Reach chars rest s s' go mode run = one (typed chars rest s s' go mode run)

  -- What a control that waited for a character went on with.
  waited :
      (o : Option (ℕ × List (Option ℕ))) (f : ℕ → Option (Pi Float)) (rest : List (Option ℕ))
      (s' : Pi Float)
      → (elim o [ none ↦ some waits | some (ch, keys) ↦ f ch >>= λ s'. some (went keys s') ])
        ≡ some (went rest s')
      → (ch : ℕ) × (f ch ≡ some s')
  waited none f rest s' run = absurd (waits_ne rest s' (some_inj run))
  waited (some (ch, keys)) f rest s' run =
      let (t, step, e) = >>=-eq-some (f ch) _ run in
      let same : t ≡ s' = cc in (ch, rw (← same) step)

  pressed-Reach :
      (keys rest : List (Option ℕ)) (s s' : Pi Float)
      → s.exit_flag ≡ false
      → s.keyboard_mode ≡ 3
      → press_and_press w keys s ≡ some (went rest s')
      → Reach w key_name (between s) (between s')
  unfolding press_and_press
  pressed-Reach keys rest s s' go mode run =
      let (ch, step) =
        waited (wait_press s.previous_command keys) (λ c. pressed w c s) rest s' run in
      one (press ch s s' go mode step)

  timed-Reach :
      (keys rest : List (Option ℕ)) (s s' : Pi Float)
      → s.exit_flag ≡ false
      → s.keyboard_mode ≡ 4
      → timed_movement w keys s ≡ some (went rest s')
      → Reach w key_name (between s) (between s')
  unfolding timed_movement
  timed-Reach keys rest s s' go mode run =
      let (ch, step) = waited (wait_key keys) (λ c. timed w c s) rest s' run in
      one (adjust ch s s' go mode step)

  -- As a chain of turns of the main thread.
  control_turn-Reach :
      (i i' : Inputs) (s s' : Pi Float)
      → s.exit_flag ≡ false
      → control_turn w key_name i s ≡ some (some (i', s'))
      → Reach w key_name (between s) (between s')
  unfolding control_turn keypress_control
  control_turn-Reach i i' s s' go run = elim (if-cases (s.keyboard_mode == 1) _ _ _ run) [
    | inl (m, a) ↦
        let (rest, e) = resumed_went _ (params_control w i.chars s) i' s' a in
        typed-Reach i.chars rest s s' go ((==_iff s.keyboard_mode 1).0 m) e
    | inr (_, run2) ↦ elim (if-cases (s.keyboard_mode == 2) _ _ _ run2) [
      | inl (m, a) ↦
          let (rest, e) = resumed_went _ (keypress_control w key_name i.polls s) i' s' a in
          joined w key_name (one (open_window s go ((==_iff s.keyboard_mode 2).0 m)))
            (hold_loop-Reach i.polls rest no_keys (opened s) s' e)
      | inr (_, run3) ↦ elim (if-cases (s.keyboard_mode == 3) _ _ _ run3) [
        | inl (m, a) ↦
            let (rest, e) = resumed_went _ (press_and_press w i.presses s) i' s' a in
            pressed-Reach i.presses rest s s' go ((==_iff s.keyboard_mode 3).0 m) e
        | inr (_, run4) ↦ elim (if-cases (s.keyboard_mode == 4) _ _ _ run4) [
          | inl (m, a) ↦
              let (rest, e) = resumed_went _ (timed_movement w i.presses s) i' s' a in
              timed-Reach i.presses rest s s' go ((==_iff s.keyboard_mode 4).0 m) e
          | inr (_, still) ↦ let same : s ≡ s' = cc in rw same here
        ]
      ]
    ]
  ]

  -- A turn of the loop of `main` that goes through on its input, in whatever mode and whatever was
  -- typed, pressed and polled in it, keeps the speed a multiple of 5 from 0 to 100, the delay a
  -- multiple of 50 that is not negative, the mode one of the four, and, until the program is told
  -- to exit, the curses screen on exactly in the two modes that draw on it. The conditions are that
  -- the program has not been told to exit before it and that SDL gives no name that begins with 3
  -- or 4 to any other key than those two; the delay is counted without the bounds of an `int`.
  pub control_turn-IsSound :
      (i i' : Inputs) (s s' : Pi Float)
      → AreNames key_name
      → s.exit_flag ≡ false
      → control_turn w key_name i s ≡ some (some (i', s'))
      → IsSound s
      → IsSound s'
  control_turn-IsSound i i' s s' names go run h =
      Reach-Good w key_name names (between s) (between s') (control_turn-Reach i i' s s' go run) h
