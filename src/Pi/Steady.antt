-- ===== src/Pi/Steady.antt =====
-- Every turn of the program on the Raspberry Pi keeps its globals sound.
use cg2111a_b.Base.{
  ℕ, ◌%◌, ◌≡◌, refl, arith, List, [], ◌∷◌, Option, some, >>=-eq-some, true, false, ◌&&◌, not,
  if◌then◌else◌, ◌==◌, String, Bool-cases, inl, inr,
}
use cg2111a_b.Base.Int.{ℤ, pos, negsuc, ◌+ℤ◌, ◌-ℤ◌, leb_ℤ, ltb_ℤ, eqb_ℤ}
use cg2111a_b.Pi.{Pi, Arg, Event, World, emit, printw, went, refresh, sleep, char}
use cg2111a_b.Pi.Prints.{
  increase_speedw, decrease_speedw, increase_delay, decrease_delay, refresh_screen, raise_speed,
  lower_speed,
}
use cg2111a_b.Pi.Send.{send_command}
use cg2111a_b.Pi.Control.{params_control, prompted, pressed, timed, counted}
use cg2111a_b.Pi.Sound.{
  IsSound, IsSpeed, IsDelay, curses_on, drawn-IsSound, kept-IsSound, sped-IsSound, delayed-IsSound,
  some_inj,
}
use cg2111a_b.Pi.Sound.Commands.{send_command-IsSound}

raised-IsSpeed : (z : ℤ) → IsSpeed z → leb_ℤ (z +ℤ pos 5) (pos 100) ≡ true → IsSpeed (z +ℤ pos 5)
unfolding ◌+ℤ◌
raised-IsSpeed (pos n) h e = ground arith
raised-IsSpeed (negsuc n) h e = absurd h

lowered-IsSpeed : (z : ℤ) → IsSpeed z → eqb_ℤ z (pos 0) ≡ false → IsSpeed (z -ℤ pos 5)
unfolding ◌-ℤ◌
lowered-IsSpeed (pos n) h e = ground arith
lowered-IsSpeed (negsuc n) h e = absurd h

longer-IsDelay : (z : ℤ) → IsDelay z → IsDelay (z +ℤ pos 50)
unfolding ◌+ℤ◌
longer-IsDelay (pos n) h = ground arith
longer-IsDelay (negsuc n) h = absurd h

shorter-IsDelay : (z : ℤ) → IsDelay z → ltb_ℤ (z -ℤ pos 50) (pos 0) ≡ false → IsDelay (z -ℤ pos 50)
unfolding ◌-ℤ◌
shorter-IsDelay (pos n) h e = ground arith
shorter-IsDelay (negsuc n) h e = absurd h

module _ {Float : Type 0} where
  -- A way to print that leaves the screen alone.
  abbrev LeavesScreen : (String → List (Arg Float) → Event Float) → Type 0
  LeavesScreen say =
      (format : String) (args : List (Arg Float)) (calls : List (Event Float))
      → curses_on (say format args ∷ calls) ≡ curses_on calls

  pub raise_speed-IsSound :
      (say : String → List (Arg Float) → Event Float) (s : Pi Float)
      → LeavesScreen say
      → IsSound s
      → IsSound (raise_speed say s)
  unfolding raise_speed
  raise_speed-IsSound say s quiet h = elim (Bool-cases (leb_ℤ (s.speed +ℤ pos 5) (pos 100))) [
    | inl e ↦ rw e (sped-IsSound s _ _ (raised-IsSpeed s.speed h.speed_ok e) (quiet _ _ _) h)
    | inr e ↦ rw e (sped-IsSound s (pos 100) _ (omega arith) (quiet _ _ _) h)
  ]

  pub lower_speed-IsSound :
      (say : String → List (Arg Float) → Event Float) (s : Pi Float)
      → LeavesScreen say
      → IsSound s
      → IsSound (lower_speed say s)
  unfolding lower_speed
  lower_speed-IsSound say s quiet h = elim (Bool-cases (eqb_ℤ s.speed (pos 0))) [
    | inl e ↦ rw e (drawn-IsSound s _ h (quiet _ _ _))
    | inr e ↦ rw e (sped-IsSound s _ _ (lowered-IsSpeed s.speed h.speed_ok e) (quiet _ _ _) h)
  ]

  decrease_delay-IsSound : (s : Pi Float) → IsSound s → IsSound (decrease_delay s)
  unfolding decrease_delay
  decrease_delay-IsSound s h = elim (Bool-cases (ltb_ℤ (s.delay_time -ℤ pos 50) (pos 0))) [
    | inl e ↦ rw e (delayed-IsSound s (pos 0) _ refl refl h)
    | inr e ↦ rw e (delayed-IsSound s _ _ (shorter-IsDelay s.delay_time h.delay_ok e) refl h)
  ]

  increase_delay-IsSound : (s : Pi Float) → IsSound s → IsSound (increase_delay s)
  unfolding increase_delay
  increase_delay-IsSound s h = delayed-IsSound s _ _ (longer-IsDelay s.delay_time h.delay_ok) refl h

  refresh_screen-IsSound : (s : Pi Float) → IsSound s → IsSound (refresh_screen s)
  unfolding refresh_screen
  refresh_screen-IsSound s h =
      elim (Bool-cases (not (s.commands_sent == 0) && (s.commands_sent % 5 == 0))) [
        | inl e ↦ rw e (drawn-IsSound s _ h refl)
        | inr e ↦ rw e h
      ]

module _ (w : World) where
  open w use {Float}

  pub params_control-IsSound :
      (chars rest : List ℕ) (s s' : Pi Float)
      → params_control w chars s ≡ some (went rest s')
      → IsSound s
      → IsSound s'
  unfolding params_control
  params_control-IsSound [] rest s s' run h = cc
  params_control-IsSound (ch ∷ chars) rest s s' run h =
      let (t, sent, e) = >>=-eq-some (send_command w ch (prompted w ch s)) _ run in
      let same : t ≡ s' = cc in
      rw (← same) (send_command-IsSound w ch _ t sent (drawn-IsSound s _ h refl))

  counted-IsSound : (s : Pi Float) → IsSound s → IsSound (counted w s)
  counted-IsSound s h = kept-IsSound s _ refl refl refl refl refl h

  abbrev announced : ℕ → Pi Float → Pi Float
  announced ch s = emit refresh (emit (printw "send command : %c\n" (char ch ∷ [])) s)

  abbrev timed_step : ℕ → Pi Float → Option (Pi Float)
  timed_step ch s =
      if ch == b','
      then some (decrease_delay s)
      else (if ch == b'.'
          then some (increase_delay s)
          else send_command w ch (emit (printw "send command : %c\n" (char ch ∷ [])) s))

  timed_step-IsSound :
      (ch : ℕ) (s s' : Pi Float) → timed_step ch s ≡ some s' → IsSound s → IsSound s'
  timed_step-IsSound ch s s' run h = elim (Bool-cases (ch == b',')) [
    | inl e ↦ rw (← some_inj (rw e at run)) (decrease_delay-IsSound s h)
    | inr e ↦
        let run' = rw e at run in
        elim (Bool-cases (ch == b'.')) [
          | inl f ↦ rw (← some_inj (rw f at run')) (increase_delay-IsSound s h)
          | inr f ↦ send_command-IsSound w ch _ s' (rw f at run') (drawn-IsSound s _ h refl)
        ]
  ]

  pub pressed-IsSound :
      (ch : ℕ) (s s' : Pi Float) → pressed w ch s ≡ some s' → IsSound s → IsSound s'
  unfolding pressed
  pressed-IsSound ch s0 s' run h =
      let s = refresh_screen s0 in
      let hs = refresh_screen-IsSound s0 h in
      elim (Bool-cases (ch == b',')) [
        | inl e ↦
            let same : counted w (decrease_speedw s) ≡ s' = some_inj (rw e at run) in
            rw (← same) (counted-IsSound _ (lower_speed-IsSound printw s (λ f a c. refl) hs))
        | inr e ↦
            let run' = rw e at run in
            elim (Bool-cases (ch == b'.')) [
              | inl f ↦
                  let same : counted w (increase_speedw s) ≡ s' = some_inj (rw f at run') in
                  rw (← same) (counted-IsSound _ (raise_speed-IsSound printw s (λ f a c. refl) hs))
              | inr f ↦
                  let (t, sent, g) =
                    >>=-eq-some (send_command w ch (announced ch s)) _ (rw f at run') in
                  let same : counted w (record t { previous_command = ch }) ≡ s' = some_inj g in
                  rw (← same) (
                    kept-IsSound t _ refl refl refl refl refl
                      (send_command-IsSound w ch _ t sent (drawn-IsSound s _ hs refl)))
            ]
      ]

  pub timed-IsSound : (ch : ℕ) (s s' : Pi Float) → timed w ch s ≡ some s' → IsSound s → IsSound s'
  unfolding timed
  timed-IsSound ch s0 s' run h =
      let s = refresh_screen s0 in
      let hs = refresh_screen-IsSound s0 h in
      let (t, step, g) = >>=-eq-some (timed_step ch s) _ run in
      let same : counted w (emit (sleep 1) (emit refresh t)) ≡ s' = some_inj g in
      rw (← same) (kept-IsSound t _ refl refl refl refl refl (timed_step-IsSound ch s t step hs))
