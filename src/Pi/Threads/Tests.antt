-- ===== src/Pi/Threads/Tests.antt =====
-- An OK of the Arduino, read in two pieces.
use cg2111a_b.Base.{◌∙◌, ℕ, ◌≡◌, refl, List, [], ◌∷◌, some, replicate, take, drop, arith}
use cg2111a_b.Base.Int.{pos}
use cg2111a_b.Packet.{packet_bytes, as_packet}
use cg2111a_b.Packet.Tests.{forward}
use cg2111a_b.Serialize.{init, comms_bytes}
use cg2111a_b.Serialize.Roundtrip.{frame}
use cg2111a_b.Serialize.Tests.{blank, blank-IsComms, init-IsValid}
use cg2111a_b.Link.{Read, got, failed, receive}
use cg2111a_b.Link.Turns.{IsRunning}
use cg2111a_b.Link.Delivery.{receive-stream}
use cg2111a_b.Pi.Handlers.{handle_packet, handle_response, acknowledged}
use cg2111a_b.Pi.Tests.{world, started}
use cg2111a_b.Pi.Quiet.{IsQuiet}
use cg2111a_b.Pi.Threads.Receiving.{Receiving, on_packet, on_error, receive-IsQuiet}

abbrev ok_bytes : List ℕ
ok_bytes = frame blank (packet_bytes (record forward { packet_type = 3 }))

abbrev reads : List Read
reads = got (take 60 ok_bytes) ∷ failed ∷ got (drop 60 ok_bytes) ∷ []

abbrev thread : Receiving world
thread = record {
  buffer = replicate 140 0;
  packet = replicate 100 0;
  receiver = init;
  state = some (started (pos 3));
}

thread-IsRunning : IsRunning (on_packet world) (on_error world) thread
thread-IsRunning = record { buffer_size = refl; packet_len = refl; valid = init-IsValid }

received :
    (t : Receiving world) × (receive (on_packet world) (on_error world) thread reads ≡ some t)
    × (t.state ≡ some (acknowledged world (started (pos 3))))
unfolding handle_packet handle_response
received =
    let (t, run, state, left) =
      receive-stream (on_packet world) (on_error world) thread reads
        (record { slot = blank; structure = packet_bytes (record forward { packet_type = 3 }) }
          ∷ [])
        thread-IsRunning ((blank-IsComms, (unfold packet_bytes in refl)), tt)
        (unfold comms_bytes packet_bytes in (omega arith, (omega arith, (omega arith, tt))))
        (unfold comms_bytes packet_bytes in refl) in
    (t, run, state ∙ (unfold packet_bytes as_packet in refl))

receive-IsQuiet_example : IsQuiet (started (pos 3)) (acknowledged world (started (pos 3)))
receive-IsQuiet_example =
    receive-IsQuiet world reads thread received.0 (started (pos 3))
      (acknowledged world (started (pos 3))) received.1 refl received.2
