-- ===== src/Server/Requests.antt =====
-- What a network packet makes the server (server/tls-alex-server.cpp) put on the serial port.
use cg2111a_b.Base.{
  ℕ, ◌^◌, ◌<◌, ◌≤◌, ◌≡◌, refl, sym, ap, arith, List, [], ◌∷◌, Option, some, none, le→leb,
  if◌then◌else◌, ◌==◌, length, drop, Bool-cases, IsBytes, All-drop, inl, inr,
}
use cg2111a_b.Base.Int.{pos, ◌≤ℤ◌}
use cg2111a_b.Memory.Words.{le_word-lt}
use cg2111a_b.Packet.{Packet, packet_bytes, set_param}
use cg2111a_b.Packet.Layout.{IsPacket, length-packet_bytes}
use cg2111a_b.Serialize.{Comms}
use cg2111a_b.Serialize.Frame.{IsComms}
use cg2111a_b.Serialize.Roundtrip.{frame, serialize_lem}
use cg2111a_b.Pi.{CommandType, command_code, command_clear_stats}
use cg2111a_b.Packet.Stores.{set_param-IsPacket, coded-IsPacket}
use cg2111a_b.Pi.Params.{IsStack}
use cg2111a_b.Server.{Server, Locals, Call, write, printf, call, uart_command, net_command_packet}
use cg2111a_b.Server.Uart.{server_write, uart_send_packet}
use cg2111a_b.Server.Network.{
  NetCase, drive, reset, refuse, net_case_of, net_param, run_net_case, handle_command,
  handle_network_data,
}
use cg2111a_b.Server.Table.{net_requested, net_request, net_request-net_case_of}

-- The bytes given to the serial port, the last ones first.
abbrev pub sent : List Call → List (List ℕ)
sent [] = []
sent (write bytes ∷ calls) = bytes ∷ sent calls
sent (_ ∷ calls) = sent calls

-- One packet of the command type was sent since `s`.
pub record Commands (code : CommandType) (s s' : Server) : Type 0 where
  pub slot : Comms
  pub packet : Packet
  pub slot_shape : IsComms slot
  pub packet_shape : IsPacket packet
  pub kind : packet.packet_type ≡ uart_command
  pub command : packet.command ≡ command_code code
  pub wire : sent s'.calls ≡ frame slot (packet_bytes packet) ∷ sent s.calls

abbrev pub NetEffect : Option CommandType → Server → Server → Type 0
NetEffect none s s' = sent s'.calls ≡ sent s.calls
NetEffect (some code) s s' = Commands code s s'

-- What a network packet asks for.
abbrev pub asked_for : ℕ → ℕ → Option CommandType
asked_for kind cmd = if kind == net_command_packet then net_requested cmd else none

net_param-lt : (buffer : List ℕ) (from : ℕ) → IsBytes buffer → net_param buffer from < 2 ^ 32
net_param-lt buffer from h = le_word-lt 4 (drop from buffer) (All-drop (λ b. b < 256) from buffer h)

module _ (w : Locals) (stacks : (s : Server) → IsStack (w.stack s)) where
  open w use {stack}

  uart_send_packet_lem :
      (p : Packet) (s : Server)
      → IsPacket p
      → pos 0 ≤ℤ s.fd
      → uart_send_packet w p s ≡ some (call (write (frame (stack s).slot (packet_bytes p))) s)
  unfolding uart_send_packet server_write
  uart_send_packet_lem p s h open_port =
      rw
        (
          sym (length-packet_bytes p h),
          serialize_lem (stack s).slot (stack s).buffer (packet_bytes p) (stacks s).slot
              (stacks s).buffer (omega (arith, length-packet_bytes p h)),
        )
        (rw (le→leb _ _ open_port) refl)

  send-Commands :
      (code : CommandType) (p : Packet) (s0 s : Server)
      → IsPacket p
      → p.packet_type ≡ uart_command
      → p.command ≡ command_code code
      → pos 0 ≤ℤ s.fd
      → sent s.calls ≡ sent s0.calls
      → (s' : Server) × (uart_send_packet w p s ≡ some s')
        × Commands code s0 s'
        × (s'.tls_conn ≡ s.tls_conn)
  send-Commands code p s0 s h kind command open_port quiet = (
    call (write (frame (stack s).slot (packet_bytes p))) s,
    uart_send_packet_lem p s h open_port,
    record {
      slot = (stack s).slot;
      packet = p;
      slot_shape = (stacks s).slot;
      packet_shape = h;
      kind = kind;
      command = command;
      wire = ap (λ t. frame (stack s).slot (packet_bytes p) ∷ t) quiet;
    },
    refl,
  )

  run_net_case-NetEffect :
      (k : NetCase) (p : Packet) (s0 s : Server)
      → IsPacket p
      → p.packet_type ≡ uart_command
      → pos 0 ≤ℤ s.fd
      → sent s.calls ≡ sent s0.calls
      → (s' : Server) × (run_net_case w k p s ≡ some s')
        × NetEffect (net_request k) s0 s'
        × (s'.tls_conn ≡ s.tls_conn)
  unfolding run_net_case
  run_net_case-NetEffect (drive code) p s0 s h kind port quiet =
      send-Commands code (record p { command = command_code code }) s0 s
        (coded-IsPacket p p.packet_type (command_code code) h) kind refl port quiet
  run_net_case-NetEffect reset p s0 s h kind port quiet =
      send-Commands command_clear_stats
        (set_param 0 0 (record p { command = command_code command_clear_stats })) s0 s
        (set_param-IsPacket 0 0 _
          (coded-IsPacket p p.packet_type (command_code command_clear_stats) h) (omega arith))
        kind refl port quiet
  run_net_case-NetEffect refuse p s0 s h kind port quiet = (_, refl, quiet, refl)

  handle_command-NetEffect :
      (kind cmd : ℕ) (rest : List ℕ) (s0 s : Server)
      → 8 ≤ length rest
      → IsBytes (kind ∷ cmd ∷ rest)
      → pos 0 ≤ℤ s.fd
      → sent s.calls ≡ sent s0.calls
      → (s' : Server) × (handle_command w (kind ∷ cmd ∷ rest) s ≡ some s')
        × NetEffect (net_requested cmd) s0 s'
        × (s'.tls_conn ≡ s.tls_conn)
  unfolding handle_command
  handle_command-NetEffect kind cmd rest s0 s long bytes port quiet =
      let buffer = kind ∷ cmd ∷ rest in
      let a = net_param buffer 2 in
      let b = net_param buffer 6 in
      rw (← net_request-net_case_of cmd, le→leb 10 (length buffer) (omega arith))
        (run_net_case-NetEffect (net_case_of cmd)
          (set_param 1 b (set_param 0 a (record ((stack s).packet) { packet_type = uart_command })))
          s0 (call (printf "COMMAND RECEIVED: %c %d %d\n" (cmd ∷ a ∷ b ∷ [])) s)
          (set_param-IsPacket 1 b _
            (set_param-IsPacket 0 a _
              (coded-IsPacket (stack s).packet uart_command (stack s).packet.command
                (stacks s).packet)
              (net_param-lt buffer 2 bytes))
            (net_param-lt buffer 6 bytes))
          refl port quiet)

  -- With the serial port open, a buffer of at least 10 bytes from the network is handled without
  -- a fault, and its connection is the one that answers go to. A command packet with one of the
  -- seven letters puts exactly one packet on the serial port, of the command type, with the
  -- command of the letter and framed; any other buffer puts nothing there. The uninitialised
  -- locals have the sizes of their types.
  pub handle_network_data-NetEffect :
      (conn : ℕ) (kind cmd : ℕ) (rest : List ℕ) (s : Server)
      → 8 ≤ length rest
      → IsBytes (kind ∷ cmd ∷ rest)
      → pos 0 ≤ℤ s.fd
      → (s' : Server) × (handle_network_data w conn (kind ∷ cmd ∷ rest) s ≡ some s')
        × NetEffect (asked_for kind cmd) s s'
        × (s'.tls_conn ≡ some conn)
  unfolding handle_network_data
  handle_network_data-NetEffect conn kind cmd rest s long bytes port =
      elim (Bool-cases (kind == net_command_packet)) [
        | inl e ↦ rw e (
            handle_command-NetEffect kind cmd rest s (record s { tls_conn = some conn }) long bytes
              port refl)
        | inr e ↦ rw e (record s { tls_conn = some conn }, refl, refl, refl)
      ]
