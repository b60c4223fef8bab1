-- ===== src/Pi/Requests.antt =====
-- What `sendCommand` (RPi/usart.cpp) puts on the wire.
use cg2111a_b.Base.{ℕ, le→leb, ◌≡◌, refl, sym, ap, ◌∙◌, arith, ◌∷◌, Option, some, none}
use cg2111a_b.Base.Int.{pos, ◌≤ℤ◌}
use cg2111a_b.Packet.{Packet, packet_bytes, set_param}
use cg2111a_b.Packet.Layout.{IsPacket, length-packet_bytes}
use cg2111a_b.Serialize.{Comms}
use cg2111a_b.Serialize.Frame.{IsComms}
use cg2111a_b.Serialize.Roundtrip.{frame, serialize_lem}
use cg2111a_b.Pi.{
  Pi, World, CommandType, command_code, command_stop, command_get_stats, command_clear_stats,
  command_color, command_dist, command_lcd, write, emit,
}
use cg2111a_b.Pi.Serial.{serial_write}
use cg2111a_b.Pi.Table.{requested, kind_of_mode, request, request-case_of, packet_type_of_lem}
use cg2111a_b.Pi.Send.{
  packet_type_of, Case, mode_params, mode_hold, mode_press, mode_timed, move, stop, clear_stats,
  get_stats, color, dist, lcd, help, quit, bad, case_of, send_packet, get_params, run_case,
  send_command,
}
use cg2111a_b.Packet.Stores.{set_param-IsPacket, coded-IsPacket}
use cg2111a_b.Pi.Params.{
  IsStack, written, written-leave_curses, leave_curses_port, enter_curses_port,
  written-enter_curses, get_params-GotParams,
}

-- The calls after `s'` is reached from `s` by sending one packet.
pub record Sends {Float : Type 0} (mode : ℕ) (code : CommandType) (s s' : Pi Float) : Type 0 where
  pub slot : Comms
  pub packet : Packet
  pub slot_shape : IsComms slot
  pub packet_shape : IsPacket packet
  pub kind : packet.packet_type ≡ kind_of_mode mode
  pub command : packet.command ≡ command_code code
  pub wire : written s'.calls ≡ frame slot (packet_bytes packet) ∷ written s.calls

-- What a command character does to the wire.
abbrev pub Effect : {Float : Type 0} → Option CommandType → ℕ → Pi Float → Pi Float → Type 0
Effect none mode s s' = written s'.calls ≡ written s.calls
Effect (some code) mode s s' = Sends mode code s s'

module _ (w : World) (stacks : (s : Pi w.Float) → IsStack (w.stack s)) where
  open w use {Float, stack}

  pub send_packet_lem :
      (p : Packet) (s : Pi Float)
      → IsPacket p
      → pos 0 ≤ℤ s.fd
      → send_packet w p s ≡ some (emit (write (frame (stack s).slot (packet_bytes p))) s)
  unfolding send_packet serial_write
  send_packet_lem p s h open_port =
      rw
        (
          sym (length-packet_bytes p h),
          serialize_lem (stack s).slot (stack s).buffer (packet_bytes p) (stacks s).slot
              (stacks s).buffer (omega (arith, length-packet_bytes p h)),
        )
        (rw (le→leb _ _ open_port, serial_write) refl)

  send_code-Sends :
      (code : CommandType) (mode : ℕ) (p : Packet) (s0 s : Pi Float)
      → IsPacket p
      → p.packet_type ≡ kind_of_mode mode
      → pos 0 ≤ℤ s.fd
      → written s.calls ≡ written s0.calls
      → (s' : Pi Float) × (send_packet w (record p { command = command_code code }) s ≡ some s')
        × Sends mode code s0 s'
        × (s'.fd ≡ s.fd)
  send_code-Sends code mode p s0 s h kind open_port quiet = (
    emit (write (frame (stack s).slot (packet_bytes q))) s,
    send_packet_lem q s shape open_port,
    record {
      slot = (stack s).slot;
      packet = q;
      slot_shape = (stacks s).slot;
      packet_shape = shape;
      kind = kind;
      command = refl;
      wire = ap (λ t. frame (stack s).slot (packet_bytes q) ∷ t) quiet;
    },
    refl,
  )
    where
      q : Packet
      q = record p { command = command_code code }

      shape : IsPacket q
      shape = coded-IsPacket p p.packet_type (command_code code) h

  run_case-Effect :
      (k : Case) (p : Packet) (s : Pi Float)
      → IsPacket p
      → p.packet_type ≡ kind_of_mode s.keyboard_mode
      → pos 0 ≤ℤ s.fd
      → (s' : Pi Float) × (run_case w k p s ≡ some s')
        × Effect (request k) s.keyboard_mode s s'
        × (s'.fd ≡ s.fd)
  unfolding run_case
  run_case-Effect mode_params p s h kind port =
      (_, refl, written-leave_curses s, leave_curses_port s)
  run_case-Effect mode_hold p s h kind port = (_, refl, written-leave_curses s, leave_curses_port s)
  run_case-Effect mode_press p s h kind port =
      (_, refl, written-enter_curses s, enter_curses_port s)
  run_case-Effect mode_timed p s h kind port =
      (_, refl, written-enter_curses s, enter_curses_port s)
  run_case-Effect (move c) p s h kind port =
      let g = get_params-GotParams w p s h in
      let (s', sent, sends, same) =
        send_code-Sends c s.keyboard_mode (get_params w p s).0 s (get_params w p s).1 g.shape
          (g.kind ∙ kind) (rw g.port port) g.quiet in
      (s', sent, sends, same ∙ g.port)
  run_case-Effect stop p s h kind port =
      send_code-Sends command_stop s.keyboard_mode p s s h kind port refl
  run_case-Effect clear_stats p s h kind port =
      send_code-Sends command_clear_stats s.keyboard_mode (set_param 0 0 p) s s
        (set_param-IsPacket 0 0 p h (omega arith)) kind port refl
  run_case-Effect get_stats p s h kind port =
      send_code-Sends command_get_stats s.keyboard_mode p s s h kind port refl
  run_case-Effect color p s h kind port =
      send_code-Sends command_color s.keyboard_mode p s _ h kind port refl
  run_case-Effect dist p s h kind port =
      send_code-Sends command_dist s.keyboard_mode p s _ h kind port refl
  run_case-Effect lcd p s h kind port =
      send_code-Sends command_lcd s.keyboard_mode p s _ h kind port refl
  run_case-Effect help p s h kind port = (_, refl, refl, refl)
  run_case-Effect quit p s h kind port = (_, refl, written-leave_curses s, leave_curses_port s)
  run_case-Effect bad p s h kind port = (_, refl, refl, refl)

  -- With the port open, every character is handled without a fault, and the port stays as it was.
  -- One that asks the Arduino for something puts exactly one packet on the wire: its type says
  -- the mode, its command is the one of the character, and its bytes are framed. Any other
  -- character puts nothing on the wire. The uninitialised locals have the sizes of their types.
  pub send_command-Effect :
      (c : ℕ) (s : Pi Float)
      → pos 0 ≤ℤ s.fd
      → (s' : Pi Float) × (send_command w c s ≡ some s')
        × Effect (requested c) s.keyboard_mode s s'
        × (s'.fd ≡ s.fd)
  unfolding send_command
  send_command-Effect c s port = rw (← request-case_of c) (
      run_case-Effect (case_of c)
        (record ((stack s).packet) { packet_type = packet_type_of s.keyboard_mode }) s
        (coded-IsPacket (stack s).packet (packet_type_of s.keyboard_mode) (stack s).packet.command
          (stacks s).packet)
        (packet_type_of_lem s.keyboard_mode) port)
