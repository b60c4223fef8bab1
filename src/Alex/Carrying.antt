-- ===== src/Alex/Carrying.antt =====
-- The way back: the replies of the firmware (alex/usart.ino) in a receiving thread, the handlers of
-- which are parameters.
use cg2111a_b.Base.{
  ℕ, ◌≤◌, ◌≡◌, refl, ap, sym, ◌∙◌, arith, List, [], ◌∷◌, ◌++◌, append-nil, append_assoc, some,
  length, take, take-append, length-append, All, All-append,
}
use cg2111a_b.Packet.{Packet, packet_bytes}
use cg2111a_b.Packet.Layout.{IsPacket, as_packet-packet_bytes, length-packet_bytes}
use cg2111a_b.Serialize.{Result}
use cg2111a_b.Serialize.Pending.{pending}
use cg2111a_b.Serialize.Roundtrip.{frame}
use cg2111a_b.Link.{Read, Thread, receive}
use cg2111a_b.Link.Stream.{Sent, IsSent, stream, all_bytes, Fits}
use cg2111a_b.Link.Turns.{IsRunning, handle_all}
use cg2111a_b.Link.Delivery.{receive-stream}
use cg2111a_b.Pi.Arrival.{cast}
use cg2111a_b.Alex.{Alex, World}
use cg2111a_b.Alex.Sensors.{sensor_out}
use cg2111a_b.Alex.Commands.{handle_packet}
use cg2111a_b.Alex.Wires.{wires, AreReplies}
use cg2111a_b.Alex.Answers.{replies, handle_packet-Answers}
use cg2111a_b.Alex.Typed.{IsTyped}
use cg2111a_b.Alex.Framing.{Framing}

-- The bytes of writes, of which the last comes first, in the order of writing.
abbrev pub in_order : List (List ℕ) → List ℕ
in_order [] = []
in_order (bytes ∷ older) = in_order older ++ bytes

abbrev order : List Sent → List Sent
order [] = []
order (m ∷ ms) = order ms ++ (m ∷ [])

stream-append : (ms ns : List Sent) → stream (ms ++ ns) ≡ stream ms ++ stream ns
stream-append [] ns = refl
stream-append (m ∷ ms) ns =
    ap (λ t. frame m.slot m.structure ++ t) (stream-append ms ns)
    ∙ sym (append_assoc (frame m.slot m.structure) (stream ms) (stream ns))

append_cancel : {A : Type 0} (xs ys zs : List A) → xs ++ zs ≡ ys ++ zs → xs ≡ ys
append_cancel xs ys zs e =
    let size : length xs ≡ length ys =
      omega (arith, ap length e, length-append xs zs, length-append ys zs) in
    sym (take-append xs zs)
    ∙ ap (take (length xs)) e
    ∙ ap (λ (n : ℕ). take n (ys ++ zs)) size
    ∙ take-append ys zs

-- The types and the commands of packets.
abbrev pub Coded : List (ℕ × ℕ) → List Packet → Type 0
Coded [] [] = Unit
Coded (code ∷ codes) (p ∷ ps) = (p.packet_type ≡ code.0) × (p.command ≡ code.1) × Coded codes ps
Coded _ _ = ⊥

module _ {S : Type 0} (handle : Packet → S → S) (on_error : Result → S → S) where
  -- The handler on packets of which the last comes first.
  abbrev pub seen : List Packet → S → S
  seen [] s = s
  seen (p ∷ ps) s = handle p (seen ps s)

  abbrev handler : List ℕ → S → S
  handler = cast handle on_error

  handle_all-append :
      (ms : List Sent) (m : Sent) (s : S)
      → handle_all handler on_error (ms ++ (m ∷ [])) s
        ≡ handler m.structure (handle_all handler on_error ms s)
  handle_all-append [] m s = refl
  handle_all-append (n ∷ ms) m s = handle_all-append ms m (handler n.structure s)

  -- Replies as messages of the link.
  record Carried (codes : List (ℕ × ℕ)) (bs : List (List ℕ)) : Type 0 where
    messages : List Sent
    packets : List Packet
    sent : All IsSent (order messages)
    bytes_ok : stream (order messages) ≡ in_order bs
    effect : (s : S) → handle_all handler on_error (order messages) s ≡ seen packets s
    coded : Coded codes packets

  carry :
      (w : World) (framing : Framing w) (codes : List (ℕ × ℕ)) (bs : List (List ℕ))
      → AreReplies w codes bs
      → Carried codes bs
  carry w framing [] [] h = record {
    messages = [];
    packets = [];
    sent = tt;
    bytes_ok = refl;
    effect = λ s. refl;
    coded = tt;
  }
  carry w framing [] (b ∷ bs) h = absurd h
  carry w framing (c ∷ cs) [] h = absurd h
  carry w framing (c ∷ cs) (b ∷ bs) (reply, rest) =
      let older = carry w framing cs bs rest in
      let p = reply.packet in
      let (slot, slot_shape, wire) = framing.sends reply.state p reply.shape in
      let m : Sent = record { slot = slot; structure = packet_bytes p } in
      record {
        messages = m ∷ older.messages;
        packets = p ∷ older.packets;
        sent =
            All-append IsSent (order older.messages) (m ∷ []) older.sent
              ((slot_shape, length-packet_bytes p reply.shape), tt);
        bytes_ok =
            stream-append (order older.messages) (m ∷ [])
            ∙ ap (λ t. t ++ (frame slot (packet_bytes p) ++ [])) older.bytes_ok
            ∙ ap (λ t. in_order bs ++ t) (append-nil _ ∙ sym wire ∙ sym reply.wire);
        effect = λ s.
            handle_all-append (order older.messages) m s
            ∙ ap (λ t. handler (packet_bytes p) t) (older.effect s)
            ∙ ap (λ q. handle q (seen older.packets s)) (as_packet-packet_bytes p reply.shape);
        coded = (reply.kind_ok, reply.command_ok, older.coded);
      }

  module _ (w : World) (framing : Framing w) (hi : ℕ)
      (high : (s : Alex w.Receiver) → w.pulse s sensor_out ≤ hi) (short : hi ≤ 6553)
      (packets : (s : Alex w.Receiver) → IsPacket (w.packet s)) where
    -- The bytes that the firmware wrote for one packet, however the reads cut them, are handled as
    -- the packets of its replies.
    pub receive-replies :
        (p : Packet) (s s' : Alex w.Receiver) (bs : List (List ℕ)) (t : Thread handler on_error)
        (rs : List Read)
        → IsTyped s
        → handle_packet w p s ≡ some s'
        → wires s'.calls ≡ bs ++ wires s.calls
        → IsRunning handler on_error t
        → pending t.receiver ≡ []
        → Fits rs
        → all_bytes rs ≡ in_order bs
        → (t' : Thread handler on_error) × (ps : List Packet) × (receive handler on_error t rs
            ≡ some t')
          × (t'.state ≡ seen ps t.state)
          × Coded (replies p) ps
          × (pending t'.receiver ≡ [])
    receive-replies p s s' bs t rs typed run new running empty fits cut =
        let (s1, run1, answered) = handle_packet-Answers w hi high short packets p s typed in
        let same : s1 ≡ s' = cc in
        let bytes_same : answered.replies ≡ bs =
          append_cancel answered.replies bs (wires s.calls)
            (sym answered.new ∙ ap (λ a. wires a.calls) same ∙ new) in
        let carried = carry w framing (replies p) answered.replies answered.ok in
        let (t', ran, state, left) =
          receive-stream handler on_error t rs (order carried.messages) running carried.sent fits (
            ap (λ q. q ++ all_bytes rs) empty
            ∙ cut
            ∙ ap in_order (sym bytes_same)
            ∙ sym carried.bytes_ok) in
        (t', carried.packets, ran, state ∙ carried.effect t.state, carried.coded, left)
