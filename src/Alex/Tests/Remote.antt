-- ===== src/Alex/Tests/Remote.antt =====
-- A stop from the network, found by the firmware in two pieces.
use cg2111a_b.Base.{ℕ, ◌≡◌, refl, List, [], ◌∷◌, ◌++◌, some, replicate, take, drop, arith}
use cg2111a_b.Memory.{memcpy}
use cg2111a_b.Packet.{packet_bytes}
use cg2111a_b.Packet.Tests.{forward, forward-IsPacket}
use cg2111a_b.Serialize.{serialize, checksum_loop, comms_bytes}
use cg2111a_b.Serialize.Roundtrip.{frame}
use cg2111a_b.Serialize.Tests.{blank, init-IsValid}
use cg2111a_b.Pi.{command_stop}
use cg2111a_b.Server.{Server, write, printf}
use cg2111a_b.Server.Uart.{uart_send_packet, server_write}
use cg2111a_b.Server.Network.{handle_network_data, handle_command, net_case_of, run_net_case}
use cg2111a_b.Server.Tests.{leftover, locals-IsStack, serving, zeros-IsBytes}
use cg2111a_b.Base.{true}
use cg2111a_b.Alex.Framing.{Handled}
use cg2111a_b.Alex.Delivery.{turns}
use cg2111a_b.Alex.Remote.{handle_network_data-Handled}
use cg2111a_b.Alex.Tests.{arduino, framing, reset}

abbrev stop_bytes : List ℕ
stop_bytes =
    frame blank
      (packet_bytes (record forward { packet_type = 0; command = 4; params = replicate 16 0 }))

abbrev piece : List ℕ
piece = take 60 stop_bytes

abbrev last_piece : List ℕ
last_piece = drop 61 stop_bytes

abbrev told : Server
told = record (serving true) {
  tls_conn = some 7;
  calls = write stop_bytes ∷ printf "COMMAND RECEIVED: %c %d %d\n" (b's' ∷ 0 ∷ 0 ∷ []) ∷ [];
}

stop_sent : handle_network_data leftover 7 (3 ∷ b's' ∷ replicate 127 0) (serving true) ≡ some told
unfolding handle_network_data handle_command net_case_of run_net_case uart_send_packet server_write
    serialize memcpy checksum_loop comms_bytes packet_bytes
stop_sent = refl

handle_network_data-Handled_example :
    Handled arduino framing 0 command_stop
      (turns arduino ((piece ∷ []) ++ ((0 ∷ last_piece) ∷ [])) reset)
handle_network_data-Handled_example =
    handle_network_data-Handled leftover (λ s. locals-IsStack) arduino framing
      (λ s. forward-IsPacket) (λ s. refl) 7 b's' (replicate 127 0) command_stop (serving true) told
      (piece ∷ []) 0 last_piece reset refl (omega arith)
      (omega arith, (omega arith, zeros-IsBytes 127)) (omega arith) stop_sent
      (unfold comms_bytes packet_bytes in refl) init-IsValid refl
      (unfold comms_bytes packet_bytes in (omega arith, tt))
      (unfold comms_bytes packet_bytes in omega arith)
