-- ===== src/Pi/Prints.antt =====
-- RPi/prints.cpp: the speed and the delay that the keys change, and the screen.
use cg2111a_b.Base.{◌%◌, ◌&&◌, not, List, [], ◌∷◌, String, if◌then◌else◌, ◌==◌}
use cg2111a_b.Base.Int.{pos, ◌+ℤ◌, ◌-ℤ◌, leb_ℤ, ltb_ℤ, eqb_ℤ}
use cg2111a_b.Pi.{Pi, Event, Arg, int, emit, printf, printw, clear, refresh}

abbrev pub commands_text : String
commands_text =
    "Command (w=forward, s=reverse, a=turn left, d=turn right, o=stop, c=clear stats, g=get stats v= colour q=exit)\n"

module _ {Float : Type 0} where
  unfoldable pub printf_commands : Pi Float → Pi Float
  printf_commands s = emit (printf commands_text []) s

  unfoldable pub printw_commands : Pi Float → Pi Float
  printw_commands s = emit (printw commands_text []) s

  -- `say` is `printw` in the functions whose names end in `w`, and `printf` in the others.
  unfoldable pub raise_speed : (String → List (Arg Float) → Event Float) → Pi Float → Pi Float
  raise_speed say s =
      if leb_ℤ (s.speed +ℤ pos 5) (pos 100)
      then emit (say "speed is increased to %d\n" (int (s.speed +ℤ pos 5) ∷ []))
          (record s { speed = s.speed +ℤ pos 5 })
      else emit (say "speed is maxed at 100\n" []) (record s { speed = pos 100 })

  unfoldable pub lower_speed : (String → List (Arg Float) → Event Float) → Pi Float → Pi Float
  lower_speed say s =
      if eqb_ℤ s.speed (pos 0)
      then emit (say "speed is already 0\n" []) s
      else emit (say "speed is decreased to %d\n" (int (s.speed -ℤ pos 5) ∷ []))
          (record s { speed = s.speed -ℤ pos 5 })

  unfoldable pub increase_speedw : Pi Float → Pi Float
  unfolding raise_speed
  increase_speedw s = raise_speed printw s

  unfoldable pub decrease_speedw : Pi Float → Pi Float
  unfolding lower_speed
  decrease_speedw s = lower_speed printw s

  unfoldable pub increase_speedf : Pi Float → Pi Float
  unfolding raise_speed
  increase_speedf s = raise_speed printf s

  unfoldable pub decrease_speedf : Pi Float → Pi Float
  unfolding lower_speed
  decrease_speedf s = lower_speed printf s

  unfoldable pub increase_delay : Pi Float → Pi Float
  unfolding ◌+ℤ◌
  increase_delay s =
      emit (printw "delay time is increased to %d\n" (int (s.delay_time +ℤ pos 50) ∷ []))
        (record s { delay_time = s.delay_time +ℤ pos 50 })

  unfoldable pub decrease_delay : Pi Float → Pi Float
  unfolding ◌-ℤ◌
  decrease_delay s =
      let less = s.delay_time -ℤ pos 50 in
      if ltb_ℤ less (pos 0)
      then emit (printw "delay time is zero" []) (record s { delay_time = pos 0 })
      else emit (printw "delay time is decreased to %d\n" (int less ∷ []))
          (record s { delay_time = less })

  unfoldable pub refresh_screen : Pi Float → Pi Float
  unfolding printw_commands
  refresh_screen s =
      if not (s.commands_sent == 0) && (s.commands_sent % 5 == 0)
      then emit refresh (printw_commands (emit clear s))
      else s
