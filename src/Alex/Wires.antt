-- ===== src/Alex/Wires.antt =====
-- What the Arduino puts on the wire: the calls of `Serial.write`, and what the parts of the
-- firmware (alex/*.ino) add to them.
use cg2111a_b.Base.{ℕ, ◌≡◌, refl, ap, sym, ◌∙◌, List, [], ◌∷◌, ◌++◌, append_assoc, take}
use cg2111a_b.Packet.{Packet, packet_bytes_len}
use cg2111a_b.Packet.Layout.{IsPacket}
use cg2111a_b.Alex.{Alex, World, Event, write}
use cg2111a_b.Alex.Motion.{
  forward, backward, left, right, ccw, cw, stop, move, run_motors, set_speeds,
}
use cg2111a_b.Alex.Encoders.{clear_counters}
use cg2111a_b.Alex.Replies.{send_response}
use cg2111a_b.Alex.Sensors.{get_ultrasonic_distance, distance_reverse, retract}

-- What was written, the last first.
abbrev pub wires : List Event → List (List ℕ)
wires [] = []
wires (write bytes ∷ calls) = bytes ∷ wires calls
wires (_ ∷ calls) = wires calls

module _ (w : World) where
  open w use {Float}
  open w use {Receiver}

  -- The bytes of a packet of a type and with a command, as the library of the framing made them.
  pub record IsReply (code : ℕ × ℕ) (bytes : List ℕ) : Type 0 where
    pub state : Alex Receiver
    pub packet : Packet
    pub shape : IsPacket packet
    pub kind_ok : packet.packet_type ≡ code.0
    pub command_ok : packet.command ≡ code.1
    pub wire :
        bytes
        ≡ take
            (w.serialize state (w.buffer state) packet packet_bytes_len).1
            (w.serialize state (w.buffer state) packet packet_bytes_len).0

  abbrev pub AreReplies : List (ℕ × ℕ) → List (List ℕ) → Type 0
  AreReplies [] [] = Unit
  AreReplies (code ∷ codes) (bytes ∷ rest) = IsReply code bytes × AreReplies codes rest
  AreReplies _ _ = ⊥

  -- Between two states exactly the replies of these codes were written, the last first.
  pub record Answered (codes : List (ℕ × ℕ)) (s s' : Alex Receiver) : Type 0 where
    pub replies : List (List ℕ)
    pub new : wires s'.calls ≡ replies ++ wires s.calls
    pub ok : AreReplies codes replies

  pub quiet-Answered : (s s' : Alex Receiver) → wires s'.calls ≡ wires s.calls → Answered [] s s'
  quiet-Answered s s' e = record { replies = []; new = e; ok = tt }

  pub send_response-Answered :
      (p : Packet) (s : Alex Receiver)
      → IsPacket p
      → Answered ((p.packet_type, p.command) ∷ []) s (send_response w p s)
  unfolding send_response
  send_response-Answered p s shape = record {
    replies =
        take (w.serialize s (w.buffer s) p packet_bytes_len).1
          (w.serialize s (w.buffer s) p packet_bytes_len).0
        ∷ [];
    new = refl;
    ok = (
      record {
        state = s;
        packet = p;
        shape = shape;
        kind_ok = refl;
        command_ok = refl;
        wire = refl;
      },
      tt,
    );
  }

  AreReplies-append :
      (cs ds : List (ℕ × ℕ)) (bs es : List (List ℕ))
      → AreReplies cs bs
      → AreReplies ds es
      → AreReplies (cs ++ ds) (bs ++ es)
  AreReplies-append [] ds [] es h k = k
  AreReplies-append [] ds (b ∷ bs) es h k = absurd h
  AreReplies-append (c ∷ cs) ds [] es h k = absurd h
  AreReplies-append (c ∷ cs) ds (b ∷ bs) es h k = (h.0, AreReplies-append cs ds bs es h.1 k)

  pub trans-Answered :
      (cs ds : List (ℕ × ℕ)) (s s1 s2 : Alex Receiver)
      → Answered cs s s1
      → Answered ds s1 s2
      → Answered (ds ++ cs) s s2
  trans-Answered cs ds s s1 s2 h k = record {
    replies = k.replies ++ h.replies;
    new = k.new ∙ ap (λ t. k.replies ++ t) h.new ∙ sym (append_assoc k.replies h.replies _);
    ok = AreReplies-append ds cs k.replies h.replies k.ok h.ok;
  }

  -- What writes nothing.
  pub forward-wires :
      (d v : Float) (s : Alex Receiver) → wires (forward w d v s).calls ≡ wires s.calls
  unfolding forward move run_motors set_speeds
  forward-wires d v s = refl

  pub backward-wires :
      (d v : Float) (s : Alex Receiver) → wires (backward w d v s).calls ≡ wires s.calls
  unfolding backward move run_motors set_speeds
  backward-wires d v s = refl

  pub left-wires : (d v : Float) (s : Alex Receiver) → wires (left w d v s).calls ≡ wires s.calls
  unfolding left ccw move run_motors set_speeds
  left-wires d v s = refl

  pub right-wires : (d v : Float) (s : Alex Receiver) → wires (right w d v s).calls ≡ wires s.calls
  unfolding right cw move run_motors set_speeds
  right-wires d v s = refl

  pub stop-wires : (s : Alex Receiver) → wires (stop w s).calls ≡ wires s.calls
  unfolding stop move run_motors set_speeds
  stop-wires s = refl

  pub clear_counters-wires : (s : Alex Receiver) → wires (clear_counters s).calls ≡ wires s.calls
  unfolding clear_counters
  clear_counters-wires s = refl

  pub measured-wires :
      (s : Alex Receiver) → wires (get_ultrasonic_distance w s).1.calls ≡ wires s.calls
  unfolding get_ultrasonic_distance
  measured-wires s = refl

  pub retract-wires : (s : Alex Receiver) → wires (retract w s).calls ≡ wires s.calls
  unfolding retract distance_reverse
  retract-wires s = refl
