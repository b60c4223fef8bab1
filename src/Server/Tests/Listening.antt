-- ===== src/Server/Tests/Listening.antt =====
-- A status of the rover, read by the server in two pieces.
use cg2111a_b.Base.{◌∙◌, ℕ, ◌≡◌, refl, List, [], ◌∷◌, some, true, replicate, take, drop, arith}
use cg2111a_b.Packet.{Packet, packet_bytes, as_packet}
use cg2111a_b.Packet.Tests.{forward}
use cg2111a_b.Serialize.{init, comms_bytes}
use cg2111a_b.Serialize.Roundtrip.{frame}
use cg2111a_b.Serialize.Tests.{blank, blank-IsComms, init-IsValid}
use cg2111a_b.Link.{Read, got, failed}
use cg2111a_b.Link.Turns.{IsRunning}
use cg2111a_b.Link.Delivery.{receive-stream}
use cg2111a_b.Server.{Server}
use cg2111a_b.Server.Listener.{uart_handled, uart_refused, uart_receive, Listening}
use cg2111a_b.Server.Uart.{handle_uart_packet, forward_response}
use cg2111a_b.Server.Receiving.{IsPassive, uart_receive-IsPassive}
use cg2111a_b.Server.Tests.{leftover, serving}

abbrev status : Packet
status = record forward { packet_type = 1; command = 1 }

abbrev status_bytes : List ℕ
status_bytes = frame blank (packet_bytes status)

abbrev reads : List Read
reads = got (take 60 status_bytes) ∷ failed ∷ got (drop 60 status_bytes) ∷ []

abbrev thread : Listening leftover
thread = record {
  buffer = replicate 140 0;
  packet = replicate 100 0;
  receiver = init;
  state = some (serving true);
}

thread-IsRunning : IsRunning (uart_handled leftover) uart_refused thread
thread-IsRunning = record { buffer_size = refl; packet_len = refl; valid = init-IsValid }

abbrev shown : Server
shown = forward_response leftover status (serving true)

received :
    (t : Listening leftover) × (s : Server) × (uart_receive leftover thread reads ≡ some t)
    × (t.state ≡ some s)
received =
    let (t, run, state, left) =
      receive-stream (uart_handled leftover) uart_refused thread reads
        (record { slot = blank; structure = packet_bytes status } ∷ []) thread-IsRunning
        ((blank-IsComms, (unfold packet_bytes in refl)), tt)
        (unfold comms_bytes packet_bytes in (omega arith, (omega arith, (omega arith, tt))))
        (unfold comms_bytes packet_bytes in refl) in
    (t, shown, run, state ∙ (unfold packet_bytes as_packet handle_uart_packet in refl))

uart_receive-IsPassive_example : IsPassive (serving true) received.1
uart_receive-IsPassive_example =
    uart_receive-IsPassive leftover reads thread received.0 (serving true) received.1 received.2
      refl received.3
