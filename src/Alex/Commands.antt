-- ===== src/Alex/Commands.antt =====
-- The command handlers: the second half of alex/usart.ino, with `clearOneCounter` of
-- alex/alex.ino, of which what follows the `return` is left out.
use cg2111a_b.Base.{ℕ, Option, some, ◌>>=◌, if◌then◌else◌, ◌==◌}
use cg2111a_b.Base.Int.{pos, negsuc}
use cg2111a_b.Packet.{Packet, param}
use cg2111a_b.Pi.{packet_type_command_param, packet_type_command_keyboard, packet_type_command_time}
use cg2111a_b.Alex.{Alex, World, delay, emit}
use cg2111a_b.Alex.Motion.{forward, backward, left, right, stop}
use cg2111a_b.Alex.Encoders.{clear_counters}
use cg2111a_b.Alex.Replies.{send_ok, send_status, send_bad_command}
use cg2111a_b.Alex.Sensors.{send_color, send_distance}

-- The cases of `switch(command->command)`.
pub data Case : Type 0 where
  move_forward move_reverse turn_left turn_right : Case
  halt get_stats clear_stats color dist : Case
  unknown : Case

unfoldable pub case_of : ℕ → Case
case_of c =
    if c == 0
    then move_forward
    else (if c == 1
        then move_reverse
        else (if c == 2
            then turn_left
            else (if c == 3
                then turn_right
                else (if c == 4
                    then halt
                    else (if c == 5
                        then get_stats
                        else (if c == 6
                            then clear_stats
                            else (if c == 7
                                then color
                                else (if c == 8 then dist else unknown))))))))

module _ (w : World) where
  open w use {Float}
  open w use {Receiver}

  -- The cases that the three handlers share.
  unfoldable pub run_common : Case → Alex Receiver → Option (Alex Receiver)
  run_common halt s = some (stop w (send_ok w s))
  run_common get_stats s = some (send_status w (send_ok w s))
  run_common clear_stats s = some (clear_counters (send_ok w s))
  run_common color s = do s' ← send_color w s; some (send_ok w s')
  run_common dist s = some (send_distance w s)
  run_common _ s = some (send_bad_command w s)

  -- `(float)` of a parameter.
  abbrev pub float_param : Packet → ℕ → Float
  float_param p i = w.of_word (param p i)

  unfoldable pub run_param : Case → Packet → Alex Receiver → Option (Alex Receiver)
  unfolding run_common
  run_param move_forward p s = some (forward w (float_param p 0) (float_param p 1) (send_ok w s))
  run_param move_reverse p s = some (backward w (float_param p 0) (float_param p 1) (send_ok w s))
  run_param turn_left p s = some (left w (float_param p 0) (float_param p 1) (send_ok w s))
  run_param turn_right p s = some (right w (float_param p 0) (float_param p 1) (send_ok w s))
  run_param c p s = run_common c s

  unfoldable pub handle_command_param : Packet → Alex Receiver → Option (Alex Receiver)
  handle_command_param p s = run_param (case_of p.command) p s

  abbrev pub minus_one : Float
  minus_one = w.of_int (negsuc 0)

  unfoldable pub run_keyboard : Case → Packet → Alex Receiver → Option (Alex Receiver)
  unfolding run_common
  run_keyboard move_forward p s = some (forward w minus_one (float_param p 0) (send_ok w s))
  run_keyboard move_reverse p s = some (backward w minus_one (float_param p 0) (send_ok w s))
  run_keyboard turn_left p s = some (left w minus_one (float_param p 0) (send_ok w s))
  run_keyboard turn_right p s = some (right w minus_one (float_param p 0) (send_ok w s))
  run_keyboard c p s = run_common c s

  unfoldable pub handle_command_keyboard : Packet → Alex Receiver → Option (Alex Receiver)
  handle_command_keyboard p s = run_keyboard (case_of p.command) p s

  abbrev pub hundred : Float
  hundred = w.of_int (pos 100)

  -- `delay(command->params[0]); stop();` after a movement.
  abbrev for_a_while : Packet → Alex Receiver → Alex Receiver
  for_a_while p s = stop w (emit (delay (param p 0)) s)

  unfoldable pub run_time : Case → Packet → Alex Receiver → Option (Alex Receiver)
  unfolding run_common
  run_time move_forward p s = some (for_a_while p (forward w minus_one hundred (send_ok w s)))
  run_time move_reverse p s = some (for_a_while p (backward w minus_one hundred (send_ok w s)))
  run_time turn_left p s = some (for_a_while p (left w minus_one hundred (send_ok w s)))
  run_time turn_right p s = some (for_a_while p (right w minus_one hundred (send_ok w s)))
  run_time c p s = run_common c s

  unfoldable pub handle_command_time : Packet → Alex Receiver → Option (Alex Receiver)
  handle_command_time p s = run_time (case_of p.command) p s

  -- The other packet types are ignored.
  unfoldable pub handle_packet : Packet → Alex Receiver → Option (Alex Receiver)
  handle_packet p s =
      if p.packet_type == packet_type_command_param
      then handle_command_param p s
      else (if p.packet_type == packet_type_command_keyboard
          then handle_command_keyboard p s
          else (if p.packet_type == packet_type_command_time
              then handle_command_time p s
              else some s))

  abbrev clear_one_counter : ℕ → Alex Receiver → Alex Receiver
  clear_one_counter which s = send_ok w (clear_counters s)
