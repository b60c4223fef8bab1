-- ===== src/Alex/Remote.antt =====
-- A command of a client of the remote server, from the network buffer (`handleNetworkData` of
-- server/tls-alex-server.cpp) to the firmware's handlers (alex/*.ino).
use cg2111a_b.Base.{ℕ, ◌≤◌, ◌≡◌, ap, sym, ◌∙◌, List, [], ◌∷◌, ◌++◌, some, length, All, IsBytes}
use cg2111a_b.Base.Int.{pos, ◌≤ℤ◌}
use cg2111a_b.Packet.{packet_bytes}
use cg2111a_b.Packet.Layout.{IsPacket}
use cg2111a_b.Serialize.{packet_size}
use cg2111a_b.Serialize.Roundtrip.{frame}
use cg2111a_b.Pi.{CommandType}
use cg2111a_b.Pi.Params.{IsStack}
use cg2111a_b.Server.{Server, Locals, uart_command, net_command_packet}
use cg2111a_b.Server.Network.{handle_network_data}
use cg2111a_b.Server.Table.{net_requested}
use cg2111a_b.Server.Requests.{NetEffect, sent, handle_network_data-NetEffect}
use cg2111a_b.Alex.{Alex, World}
use cg2111a_b.Alex.Framing.{Framing, Handled}
use cg2111a_b.Alex.Delivery.{joined, turns, turns-handles}

module _ (sender : Locals) (stacks : (s : Server) → IsStack (sender.stack s)) (w : World)
    (framing : Framing w) (packets : (s : Alex w.Receiver) → IsPacket (w.packet s))
    (buffers : (s : Alex w.Receiver) → length (w.buffer s) ≡ packet_size) where
  -- A command packet from the network with one of the seven letters, handled by the server with the
  -- serial port open: however the turns of the firmware's loop find the bytes that this put on the
  -- wire, the last of them handles a packet of the type with parameters and with the command of
  -- the letter, and no byte is left waiting.
  pub handle_network_data-Handled :
      (conn cmd : ℕ) (rest : List ℕ) (code : CommandType) (s s' : Server) (before : List (List ℕ))
      (b : ℕ) (last : List ℕ) (a : Alex w.Receiver)
      → net_requested cmd ≡ some code
      → 8 ≤ length rest
      → IsBytes (net_command_packet ∷ cmd ∷ rest)
      → pos 0 ≤ℤ s.fd
      → handle_network_data sender conn (net_command_packet ∷ cmd ∷ rest) s ≡ some s'
      → sent s'.calls ≡ (joined before ++ (b ∷ last)) ∷ sent s.calls
      → framing.Valid a.receiver
      → framing.waiting a.receiver ≡ []
      → All (λ piece. length piece ≤ packet_size) before
      → length (b ∷ last) ≤ packet_size
      → Handled w framing uart_command code (turns w (before ++ ((b ∷ last) ∷ [])) a)
  handle_network_data-Handled conn cmd rest code s s' before b last a asks long bytes port run new
        valid empty pieces fits =
      let on_wire = joined before ++ (b ∷ last) in
      let (s1, run1, effect, _) =
        handle_network_data-NetEffect sender stacks conn net_command_packet cmd rest s long bytes
          port in
      let same : s1 ≡ s' = cc in
      let sends : NetEffect (some code) s s1 = rw asks at effect in
      let wire : on_wire ∷ sent s.calls
          ≡ frame sends.slot (packet_bytes sends.packet) ∷ sent s.calls =
        sym new ∙ ap (λ t. sent t.calls) (sym same) ∙ sends.wire in
      let bytes_ok : on_wire ≡ frame sends.slot (packet_bytes sends.packet) = cc in
      let (t, handled, valid', empty') =
        turns-handles w framing packets buffers before b last a sends.slot sends.packet valid pieces
          fits sends.slot_shape sends.packet_shape (ap (λ q. q ++ on_wire) empty ∙ bytes_ok) in
      record {
        packet = sends.packet;
        before = t;
        handled = handled;
        kind_ok = sends.kind;
        command_ok = sends.command;
        valid = valid';
        empty = empty';
      }
