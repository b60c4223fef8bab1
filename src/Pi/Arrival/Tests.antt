-- ===== src/Pi/Arrival/Tests.antt =====
-- A command that drives forward in the key press mode, read in two pieces.
use cg2111a_b.Base.{ℕ, ◌≡◌, refl, List, [], ◌∷◌, some, replicate, take, drop, arith}
use cg2111a_b.Base.Int.{pos}
use cg2111a_b.Memory.{memcpy}
use cg2111a_b.Packet.{Packet, packet_bytes, set_param}
use cg2111a_b.Packet.Tests.{forward}
use cg2111a_b.Serialize.{Result, init, serialize, checksum_loop, comms_bytes}
use cg2111a_b.Serialize.Roundtrip.{frame}
use cg2111a_b.Serialize.Tests.{blank, init-IsValid}
use cg2111a_b.Link.{Read, got, failed, Thread}
use cg2111a_b.Link.Turns.{IsRunning}
use cg2111a_b.Pi.{Pi, write, emit, command_forward}
use cg2111a_b.Pi.Serial.{serial_write}
use cg2111a_b.Pi.Send.{send_command, send_packet, run_case, case_of, get_params}
use cg2111a_b.Pi.Tests.{world, locals-IsStack, started}
use cg2111a_b.Pi.Arrival.{cast, Arrives, send_command-Arrives}

-- A handler that keeps the packets.
abbrev keep : Packet → List Packet → List Packet
keep packet s = packet ∷ s

abbrev ignore : Result → List Packet → List Packet
ignore result s = s

abbrev fresh : Thread (cast keep ignore) ignore
fresh = record { buffer = replicate 140 0; packet = replicate 100 0; receiver = init; state = [] }

fresh-IsRunning : IsRunning (cast keep ignore) ignore fresh
fresh-IsRunning = record { buffer_size = refl; packet_len = refl; valid = init-IsValid }

abbrev pressing : Pi ℕ
pressing = record (started (pos 3)) { keyboard_mode = 3 }

abbrev bytes : List ℕ
bytes = frame blank (packet_bytes (set_param 0 40 forward))

abbrev reads : List Read
reads = got (take 60 bytes) ∷ failed ∷ got (drop 60 bytes) ∷ []

forward_sent : send_command world b'w' pressing ≡ some (emit (write bytes) pressing)
unfolding send_command case_of run_case get_params send_packet serialize serial_write memcpy
    checksum_loop comms_bytes packet_bytes
forward_sent = refl

send_command-Arrives_example : Arrives keep ignore 1 command_forward fresh reads
send_command-Arrives_example =
    send_command-Arrives keep ignore world (λ s. locals-IsStack) b'w' command_forward pressing
      (emit (write bytes) pressing) bytes fresh reads refl (omega arith) forward_sent refl
      fresh-IsRunning refl
      (unfold comms_bytes packet_bytes in (omega arith, (omega arith, (omega arith, tt))))
      (unfold comms_bytes packet_bytes in refl)
