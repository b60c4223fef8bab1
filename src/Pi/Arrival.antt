-- ===== src/Pi/Arrival.antt =====
-- A command of the Raspberry Pi's program (`sendCommand` of RPi/usart.cpp), from the character to the handler of
-- a thread that reads the other end of the link with the same framing.
mod Tests
use cg2111a_b.Base.{
  ℕ, ◌≡◌, refl, sym, ap, ◌∙◌, arith, List, [], ◌∷◌, ◌++◌, Option, some, none, append-nil,
}
use cg2111a_b.Base.Int.{pos, ◌≤ℤ◌}
use cg2111a_b.Packet.{Packet, packet_bytes, as_packet}
use cg2111a_b.Packet.Layout.{as_packet-packet_bytes, length-packet_bytes}
use cg2111a_b.Serialize.{Result}
use cg2111a_b.Serialize.Pending.{pending}
use cg2111a_b.Serialize.Roundtrip.{frame}
use cg2111a_b.Link.{Read, Thread, receive}
use cg2111a_b.Link.Stream.{all_bytes, Fits}
use cg2111a_b.Link.Turns.{IsRunning}
use cg2111a_b.Link.Delivery.{receive-stream}
use cg2111a_b.Pi.{Pi, World, CommandType, command_code}
use cg2111a_b.Pi.Send.{send_command}
use cg2111a_b.Pi.Table.{requested, kind_of_mode}
use cg2111a_b.Pi.Params.{IsStack, written}
use cg2111a_b.Pi.Requests.{Sends, Effect, send_command-Effect}

module _ {ℓ} {S : Type ℓ} (handle : Packet → S → S) (handle_error : Result → S → S) where
  -- The handler of the thread casts the bytes to a packet.
  abbrev pub cast : List ℕ → S → S
  cast bytes s = handle (as_packet bytes) s

  -- What the handler was given, and that nothing is left over.
  pub record Arrives (kind : ℕ) (code : CommandType) (t : Thread cast handle_error) (rs : List Read)
      : Type ℓ where
    pub packet : Packet
    pub after : Thread cast handle_error
    pub run : receive cast handle_error t rs ≡ some after
    pub kind_ok : packet.packet_type ≡ kind
    pub command_ok : packet.command ≡ command_code code
    pub seen : after.state ≡ handle packet t.state
    pub empty : pending after.receiver ≡ []

  module _ (w : World) (stacks : (s : Pi w.Float) → IsStack (w.stack s)) where
    open w use {Float}

    sent-Arrives :
        (code : CommandType) (s s' : Pi Float) (bytes : List ℕ) (t : Thread cast handle_error)
        (rs : List Read)
        → Sends s.keyboard_mode code s s'
        → written s'.calls ≡ bytes ∷ written s.calls
        → IsRunning cast handle_error t
        → pending t.receiver ≡ []
        → Fits rs
        → all_bytes rs ≡ bytes
        → Arrives (kind_of_mode s.keyboard_mode) code t rs
    sent-Arrives code s s' bytes t rs sends new running none_left fits cut =
        let structure = packet_bytes sends.packet in
        let wire : bytes ∷ written s.calls ≡ frame sends.slot structure ∷ written s.calls =
          sym new ∙ sends.wire in
        let same : bytes ≡ frame sends.slot structure = cc in
        let (after, run, state, empty) =
          receive-stream cast handle_error t rs
            (record { slot = sends.slot; structure = structure } ∷ []) running
            ((sends.slot_shape, length-packet_bytes sends.packet sends.packet_shape), tt) fits
            (ap (λ q. q ++ all_bytes rs) none_left ∙ cut ∙ same ∙ sym (append-nil _)) in
        record {
          packet = sends.packet;
          after = after;
          run = run;
          kind_ok = sends.kind;
          command_ok = sends.command;
          seen =
              state
              ∙ ap (λ p. handle p t.state) (as_packet-packet_bytes sends.packet sends.packet_shape);
          empty = empty;
        }

    -- A character that asks for a command, typed with the port open: however the bytes that it put
    -- on the wire are cut by the reads of a thread at the other end, that thread's handler is
    -- given one packet, of the type of the mode and with the command of the character, no error
    -- is reported, and no byte is left over.
    pub send_command-Arrives :
        (c : ℕ) (code : CommandType) (s s' : Pi Float) (bytes : List ℕ)
        (t : Thread cast handle_error) (rs : List Read)
        → requested c ≡ some code
        → pos 0 ≤ℤ s.fd
        → send_command w c s ≡ some s'
        → written s'.calls ≡ bytes ∷ written s.calls
        → IsRunning cast handle_error t
        → pending t.receiver ≡ []
        → Fits rs
        → all_bytes rs ≡ bytes
        → Arrives (kind_of_mode s.keyboard_mode) code t rs
    send_command-Arrives c code s s' bytes t rs asks port run new running none_left fits cut =
        let (s1, run1, effect, _) = send_command-Effect w stacks c s port in
        let same : s1 ≡ s' = cc in
        let effect' : Effect (some code) s.keyboard_mode s s1 = rw asks at effect in
        sent-Arrives code s s1 bytes t rs effect' (rw same new) running none_left fits cut
