-- ===== src/Alex/Tests/Releasing.antt =====
-- The release of a held key, and the stop that it sends, found by the firmware in two pieces.
use cg2111a_b.Base.{ℕ, ◌≡◌, refl, [], ◌∷◌, ◌++◌, some, arith}
use cg2111a_b.Memory.{memcpy}
use cg2111a_b.Packet.{packet_bytes}
use cg2111a_b.Packet.Tests.{forward-IsPacket}
use cg2111a_b.Serialize.{serialize, checksum_loop, comms_bytes}
use cg2111a_b.Serialize.Tests.{init-IsValid}
use cg2111a_b.Pi.{Pi, emit, write, cout}
use cg2111a_b.Pi.Serial.{serial_write}
use cg2111a_b.Pi.Keys.{key_up, no_keys, on_event, on_key_up, polled}
use cg2111a_b.Pi.Send.{send_command, send_packet, run_case, case_of, get_params}
use cg2111a_b.Pi.Tests.{world, locals-IsStack, name_of, held}
use cg2111a_b.Alex.{Alex}
use cg2111a_b.Alex.Motion.{left, ccw, move, run_motors, set_speeds}
use cg2111a_b.Alex.Happenings.{IsHalted}
use cg2111a_b.Alex.Delivery.{turns}
use cg2111a_b.Alex.Journey.{on_event-halts}
use cg2111a_b.Alex.Tests.{arduino, framing, turning}
use cg2111a_b.Alex.Tests.Link.{pressing, stop_bytes, piece, last_piece}

abbrev released : Pi ℕ
released = emit (write stop_bytes) (emit (cout "car stopped\n") (polled pressing))

release_sent : on_event world name_of (key_up b'w') held pressing ≡ some (no_keys, released)
unfolding on_event on_key_up send_command case_of run_case get_params send_packet serialize
    serial_write memcpy checksum_loop comms_bytes packet_bytes
release_sent = refl

on_event-halts_example :
    (a' : Alex arduino.Receiver) × (turns arduino ((piece ∷ []) ++ ((0 ∷ last_piece) ∷ [])) turning
      ≡ some a')
    × IsHalted arduino a'
on_event-halts_example =
    on_event-halts world (λ s. locals-IsStack) arduino framing (λ s. forward-IsPacket) (λ s. refl)
      name_of b'w' held no_keys pressing released (piece ∷ []) 0 last_piece turning (omega arith)
      refl refl release_sent (unfold comms_bytes packet_bytes in refl)
      (unfold left ccw move run_motors set_speeds in init-IsValid)
      (unfold left ccw move run_motors set_speeds in refl)
      (unfold comms_bytes packet_bytes in (omega arith, tt))
      (unfold comms_bytes packet_bytes in omega arith)
