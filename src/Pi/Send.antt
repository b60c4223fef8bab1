-- ===== src/Pi/Send.antt =====
-- The sending half of RPi/usart.cpp: `sendPacket`, `getParams`, `sendCommand`.
use cg2111a_b.Base.{ℕ, ◌||◌, [], Option, some, ◌>>=◌, true, if◌then◌else◌, ◌==◌}
use cg2111a_b.Base.Int.{to_word}
use cg2111a_b.Packet.{Packet, packet_bytes, packet_bytes_len, set_param}
use cg2111a_b.Serialize.{serialize}
use cg2111a_b.Pi.{
  Pi, World, Scan, neither, first, both, CommandType, command_forward, command_reverse,
  command_turn_left, command_turn_right, command_stop, command_get_stats, command_clear_stats,
  command_color, command_dist, command_lcd, command_code, emit, printf, printw, initscr, cbreak,
  noecho, nodelay, endwin, clear, refresh, sleep, packet_type_command_param,
  packet_type_command_keyboard, packet_type_command_time,
}
use cg2111a_b.Pi.Serial.{serial_write}
use cg2111a_b.Pi.Prints.{commands_text}

-- The cases of `switch(command)` in `sendCommand`.
pub data Case : Type 0 where
  mode_params mode_hold mode_press mode_timed : Case
  move : CommandType → Case
  stop clear_stats get_stats color dist lcd : Case
  help quit bad : Case

-- The labels of the cases; letters are labels in both sizes.
unfoldable pub case_of : ℕ → Case
case_of c =
    if c == b'1'
    then mode_params
    else (if c == b'2'
        then mode_hold
        else (if c == b'3'
            then mode_press
            else (if c == b'4'
                then mode_timed
                else (if c == b'w' || c == b'W'
                    then move command_forward
                    else (if c == b's' || c == b'S'
                        then move command_reverse
                        else (if c == b'a' || c == b'A'
                            then move command_turn_left
                            else (if c == b'd' || c == b'D'
                                then move command_turn_right
                                else (if c == b'o' || c == b'O'
                                    then stop
                                    else (if c == b'k' || c == b'K'
                                        then clear_stats
                                        else (if c == b'g' || c == b'G'
                                            then get_stats
                                            else (if c == b'v' || c == b'V'
                                                then color
                                                else (if c == b'u' || c == b'U'
                                                    then dist
                                                    else (if c == b'l' || c == b'L'
                                                        then lcd
                                                        else (if c == b'c' || c == b'C'
                                                            then help
                                                            else (if c == b'q' || c == b'Q'
                                                            then quit
                                                            else bad)))))))))))))))

-- `commandPacket.packetType` by the mode.
abbrev pub packet_type_of : ℕ → ℕ
packet_type_of mode =
    if mode == 1
    then packet_type_command_param
    else (if mode == 2 || mode == 3 then packet_type_command_keyboard else packet_type_command_time)

module _ {Float : Type 0} where
  -- Leaving a curses mode, and entering one from a mode without curses.
  unfoldable pub leave_curses : Pi Float → Pi Float
  leave_curses s = if s.keyboard_mode == 3 || s.keyboard_mode == 4 then emit endwin s else s

  unfoldable pub enter_curses : Pi Float → Pi Float
  enter_curses s =
      if s.keyboard_mode == 1 || s.keyboard_mode == 2
      then emit nodelay (emit noecho (emit cbreak (emit initscr s)))
      else s

module _ (w : World) where
  open w use {Float, stack, scan}

  unfoldable pub send_packet : Packet → Pi Float → Option (Pi Float)
  send_packet p s = do
    (buffer, len) ← serialize (stack s).slot (stack s).buffer (packet_bytes p) packet_bytes_len
    some (serial_write buffer s)

  abbrev pub scanned : Scan → Packet → Packet
  scanned neither p = p
  scanned (first a) p = set_param 0 (to_word a) p
  scanned (both a b) p = set_param 1 (to_word b) (set_param 0 (to_word a) p)

  abbrev pub asked : Pi Float → Pi Float
  asked s =
      emit
        (printf
          "E.g. 50 75 means go at 50 cm at 75%% power for forward/backward, or 50 degrees left or right turn at 75%%  power\n"
          [])
        (emit
          (printf
            "Enter distance/angle in cm/degrees (e.g. 50) and power in %% (e.g. 75) separated by space.\n"
            [])
          s)

  unfoldable pub get_params : Packet → Pi Float → Packet × Pi Float
  get_params p s =
      if s.keyboard_mode == 1
      then (scanned (scan (asked s)) p, asked s)
      else (if s.keyboard_mode == 2 || s.keyboard_mode == 3
          then (set_param 0 (to_word s.speed) p, s)
          else (if s.keyboard_mode == 4 then (set_param 0 (to_word s.delay_time) p, s) else (p, s)))

  -- `commandPacket.command = c; sendPacket(&commandPacket);`.
  abbrev pub send_code : CommandType → Packet → Pi Float → Option (Pi Float)
  send_code c p s = send_packet (record p { command = command_code c }) s

  -- The bodies of the cases.
  unfoldable pub run_case : Case → Packet → Pi Float → Option (Pi Float)
  unfolding leave_curses enter_curses
  run_case mode_params p s = some (
      emit (printf "Switched to params mode\n" [])
        (record (emit (sleep 1) (leave_curses s)) { keyboard_mode = 1 }))
  run_case mode_hold p s = some (
      emit (printf "Switched to Key Hold mode\n" [])
        (record (emit (sleep 1) (leave_curses s)) { keyboard_mode = 2 }))
  run_case mode_press p s = some (
      emit refresh (
        emit (printw "Switched to Key Press mode\n" [])
          (record (enter_curses s) { keyboard_mode = 3 })))
  run_case mode_timed p s = some (
      emit refresh (
        emit (printw "Switched to Small Adjustment mode\n" [])
          (record (enter_curses s) { keyboard_mode = 4 })))
  run_case (move c) p s = let (p', s') = get_params p s in send_code c p' s'
  run_case stop p s = send_code command_stop p s
  run_case clear_stats p s = send_code command_clear_stats (set_param 0 0 p) s
  run_case get_stats p s = send_code command_get_stats p s
  run_case color p s = send_code command_color p (emit (printf "GET COLOR\n" []) s)
  run_case dist p s = send_code command_dist p (emit (printf "GET DISTANCE\n" []) s)
  run_case lcd p s = send_code command_lcd p (emit (printf "TURNING ON LCD\n" []) s)
  run_case help p s = some (emit refresh (emit (printw commands_text []) (emit clear s)))
  run_case quit p s = some (record (leave_curses s) { exit_flag = true })
  run_case bad p s = some (emit (printf "Bad command\n" []) s)

  unfoldable pub send_command : ℕ → Pi Float → Option (Pi Float)
  send_command c s =
      run_case (case_of c)
        (record ((stack s).packet) { packet_type = packet_type_of s.keyboard_mode }) s
