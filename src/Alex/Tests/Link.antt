-- ===== src/Alex/Tests/Link.antt =====
-- The theorems on the link between the firmware and the Raspberry Pi's program at concrete inputs.
use cg2111a_b.Base.{ℕ, ◌≡◌, refl, arith, List, [], ◌∷◌, ◌++◌, some, replicate, take, drop, true}
use cg2111a_b.Base.Int.{pos}
use cg2111a_b.Memory.{memcpy}
use cg2111a_b.Packet.{Packet, packet_bytes}
use cg2111a_b.Packet.Tests.{forward, forward-IsPacket}
use cg2111a_b.Serialize.{Receiver, init, serialize, checksum_loop, comms_bytes}
use cg2111a_b.Serialize.Pending.{pending}
use cg2111a_b.Serialize.Roundtrip.{frame}
use cg2111a_b.Serialize.Tests.{blank, init-IsValid}
use cg2111a_b.Pi.{Pi, emit, write, command_stop}
use cg2111a_b.Pi.Serial.{serial_write}
use cg2111a_b.Pi.Send.{send_command, send_packet, run_case, case_of, get_params}
use cg2111a_b.Pi.Tests.{world, locals-IsStack, started}
use cg2111a_b.Alex.{Alex}
use cg2111a_b.Alex.Motion.{stop, left, ccw, move, run_motors, set_speeds}
use cg2111a_b.Alex.Commands
use cg2111a_b.Alex.Commands.{handle_packet, handle_command_keyboard, run_keyboard, run_common}
use cg2111a_b.Alex.Happenings.{IsHalted}
use cg2111a_b.Link.{Read, got, failed, receive}
use cg2111a_b.Link.Turns.{IsRunning}
use cg2111a_b.Pi.Threads.Receiving.{Receiving}
use cg2111a_b.Alex.Replies.{send_ok, send_response}
use cg2111a_b.Alex.Wires.{wires}
use cg2111a_b.Alex.Return.{handler, refused, handle_packet-acknowledged}
use cg2111a_b.Alex.Delivery.{turns}
use cg2111a_b.Alex.Framing.{Handled}
use cg2111a_b.Alex.Journey.{send_command-Handled, send_command-halts}
use cg2111a_b.Alex.Tests.{arduino, framing, reset, turning}

-- A stop in the key press mode, found in two pieces.
abbrev pub pressing : Pi ℕ
pressing = record (started (pos 3)) { keyboard_mode = 3 }

abbrev pub stop_bytes : List ℕ
stop_bytes = frame blank (packet_bytes (record forward { command = 4 }))

abbrev pub piece : List ℕ
piece = take 60 stop_bytes

abbrev pub last_piece : List ℕ
last_piece = drop 61 stop_bytes

stop_sent : send_command world b'o' pressing ≡ some (emit (write stop_bytes) pressing)
unfolding send_command case_of run_case get_params send_packet serialize serial_write memcpy
    checksum_loop comms_bytes packet_bytes
stop_sent = refl

send_command-Handled_example :
    Handled arduino framing 1 command_stop
      (turns arduino ((piece ∷ []) ++ ((0 ∷ last_piece) ∷ [])) turning)
send_command-Handled_example =
    send_command-Handled world (λ s. locals-IsStack) arduino framing (λ s. forward-IsPacket)
      (λ s. refl) b'o' command_stop pressing (emit (write stop_bytes) pressing) (piece ∷ []) 0
      last_piece turning refl (omega arith) stop_sent (unfold comms_bytes packet_bytes in refl)
      (unfold left ccw move run_motors set_speeds in init-IsValid)
      (unfold left ccw move run_motors set_speeds in refl)
      (unfold comms_bytes packet_bytes in (omega arith, tt))
      (unfold comms_bytes packet_bytes in omega arith)

send_command-halts_example :
    (a' : Alex Receiver) × (turns arduino ((piece ∷ []) ++ ((0 ∷ last_piece) ∷ [])) turning
      ≡ some a')
    × IsHalted arduino a'
send_command-halts_example =
    send_command-halts world (λ s. locals-IsStack) arduino framing (λ s. forward-IsPacket)
      (λ s. refl) b'o' pressing (emit (write stop_bytes) pressing) (piece ∷ []) 0 last_piece turning
      refl (omega arith) stop_sent (unfold comms_bytes packet_bytes in refl)
      (unfold left ccw move run_motors set_speeds in init-IsValid)
      (unfold left ccw move run_motors set_speeds in refl)
      (unfold comms_bytes packet_bytes in (omega arith, tt))
      (unfold comms_bytes packet_bytes in omega arith)

-- The OK to a stop, read by the Raspberry Pi in two pieces.
abbrev pub stop_packet : Packet
stop_packet = record forward { command = 4 }

abbrev pub ok_bytes : List ℕ
ok_bytes = frame blank (packet_bytes (record forward { packet_type = 3; command = 0 }))

abbrev thread : Receiving world
thread = record {
  buffer = replicate 140 0;
  packet = replicate 100 0;
  receiver = init;
  state = some (started (pos 3));
}

thread-IsRunning : IsRunning (handler world) (refused world) thread
thread-IsRunning = record { buffer_size = refl; packet_len = refl; valid = init-IsValid }

abbrev pub reads : List Read
reads = got (take 60 ok_bytes) ∷ failed ∷ got (drop 60 ok_bytes) ∷ []

pub stopped_state : Alex Receiver
stopped_state = stop arduino (send_ok arduino reset)

pub stop_handled : handle_packet arduino stop_packet reset ≡ some stopped_state
unfolding stopped_state handle_packet handle_command_keyboard run_keyboard run_common
    Commands.case_of
stop_handled = refl

pub ok_written : wires stopped_state.calls ≡ (ok_bytes ∷ []) ++ wires reset.calls
unfolding stopped_state stop move run_motors set_speeds send_ok send_response comms_bytes
    packet_bytes
ok_written = refl

handle_packet-acknowledged_example :
    (t' : Receiving world) × (after : Pi ℕ) × (receive (handler world) (refused world) thread reads
      ≡ some t')
    × (t'.state ≡ some after)
    × (after.clear_to_send_command ≡ true)
    × (pending t'.receiver ≡ [])
handle_packet-acknowledged_example =
    handle_packet-acknowledged world arduino framing 1500 (λ s. omega arith) (omega arith)
      (λ s. forward-IsPacket) stop_packet reset stopped_state (ok_bytes ∷ []) thread
      (started (pos 3)) reads (omega arith) (omega arith) (ground arith) stop_handled ok_written
      thread-IsRunning refl refl
      (unfold comms_bytes packet_bytes in (omega arith, (omega arith, (omega arith, tt))))
      (unfold comms_bytes packet_bytes in refl)
