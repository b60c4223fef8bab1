-- ===== src/Alex/Return.antt =====
-- The way back: the replies of the firmware (alex/usart.ino) in the receiving thread of the
-- Raspberry Pi's program (RPi/usart.cpp).
use cg2111a_b.Base.{
  Option, All, partly, ℕ, ◌≤◌, ◌≡◌, refl, ap, ◌∙◌, true, List, [], ◌∷◌, ◌++◌, some, ◌==◌, leb,
  le→leb, if-holds, if-takes,
}
use cg2111a_b.Packet.{Packet}
use cg2111a_b.Packet.Layout.{IsPacket}
use cg2111a_b.Serialize.Pending.{pending}
use cg2111a_b.Link.{Read, receive}
use cg2111a_b.Link.Stream.{all_bytes, Fits}
use cg2111a_b.Link.Turns.{IsRunning}
use cg2111a_b.Pi
use cg2111a_b.Pi.{Pi}
use cg2111a_b.Pi.Handlers
use cg2111a_b.Pi.Handlers.{packet_error}
use cg2111a_b.Alex.{Alex, World}
use cg2111a_b.Alex.Sensors.{sensor_out}
use cg2111a_b.Alex.Commands.{handle_packet}
use cg2111a_b.Alex.Wires.{wires}
use cg2111a_b.Alex.Answers.{replies, replies_to}
use cg2111a_b.Alex.Going.{equal, other}
use cg2111a_b.Alex.Typed.{IsTyped}
use cg2111a_b.Serialize.{Result}
use cg2111a_b.Pi.Threads.Receiving.{Receiving, on_packet, on_error}
use cg2111a_b.Alex.Framing.{Framing}
use cg2111a_b.Alex.Carrying.{in_order, seen, Coded, receive-replies}

module _ (receiver : Pi.World) where
  -- The handlers of the Raspberry Pi's program, over its state or a fault.
  abbrev pub handler : List ℕ → Option (Pi receiver.Float) → Option (Pi receiver.Float)
  handler = on_packet receiver

  abbrev pub refused : Result → Option (Pi receiver.Float) → Option (Pi receiver.Float)
  refused = on_error receiver

  -- Packets that are all responses, the last first.
  abbrev told : List Packet → Pi receiver.Float → Pi receiver.Float
  told = seen (Handlers.handle_response receiver) packet_error

  response_handled :
      (p : Packet) (s : Pi receiver.Float)
      → p.packet_type ≡ 3
      → Handlers.handle_packet receiver p s ≡ some (Handlers.handle_response receiver p s)
  unfolding Handlers.handle_packet
  response_handled p s kind = rw (equal p.packet_type 3 kind) refl

  responses_handled :
      (codes : List (ℕ × ℕ)) (ps : List Packet) (s : Pi receiver.Float)
      → All (λ c. c.0 ≡ 3) codes
      → Coded codes ps
      → seen (partly (Handlers.handle_packet receiver)) refused ps (some s) ≡ some (told ps s)
  responses_handled [] [] s h coded = refl
  responses_handled [] (p ∷ ps) s h coded = absurd coded
  responses_handled (c ∷ cs) [] s h coded = absurd coded
  responses_handled (c ∷ cs) (p ∷ ps) s (three, rest) (kind, command, coded) =
      ap (λ m. partly (Handlers.handle_packet receiver) p m) (responses_handled cs ps s rest coded)
      ∙ response_handled p (told ps s) (kind ∙ three)

  -- What the thread makes of an OK and of a status.
  ok_clears :
      (p : Packet) (s : Pi receiver.Float)
      → p.command ≡ 0
      → (Handlers.handle_response receiver p s).clear_to_send_command ≡ true
  unfolding Handlers.handle_response
  ok_clears p s command = rw (equal p.command 0 command) refl

  status_keeps :
      (p : Packet) (s : Pi receiver.Float)
      → p.command ≡ 1
      → (Handlers.handle_response receiver p s).clear_to_send_command ≡ s.clear_to_send_command
  unfolding Handlers.handle_response Handlers.handle_status
  status_keeps p s command = rw (other p.command 1 0 command refl, equal p.command 1 command) refl

  -- Responses that leave the program clear to send.
  abbrev Clears : List (ℕ × ℕ) → Type 0
  Clears codes =
      (ps : List Packet) (s : Pi receiver.Float)
      → Coded codes ps
      → (told ps s).clear_to_send_command ≡ true

  newest_ok : (older : List (ℕ × ℕ)) → Clears ((3, 0) ∷ older)
  newest_ok older [] s h = absurd h
  newest_ok older (p ∷ ps) s (kind, command, rest) = ok_clears p (told ps s) command

  status_then_ok : Clears ((3, 1) ∷ (3, 0) ∷ [])
  status_then_ok [] s h = absurd h
  status_then_ok (p ∷ ps) s (kind, command, rest) =
      status_keeps p (told ps s) command ∙ newest_ok [] ps s rest

  -- Replies that acknowledge a command.
  abbrev Acknowledges : List (ℕ × ℕ) → Type 0
  Acknowledges codes = All (λ c. c.0 ≡ 3) codes × Clears codes

  replies-Acknowledges : (command : ℕ) → command ≤ 8 → Acknowledges (replies_to command)
  replies-Acknowledges command h =
      if-holds Acknowledges (command == 5) _ _ (λ e. ((refl, (refl, tt)), status_then_ok))
        (λ e.
          if-holds Acknowledges (command == 7) _ _
            (λ k. ((refl, (refl, tt)), newest_ok ((3, 6) ∷ [])))
            (λ k.
              if-holds Acknowledges (command == 8) _ _
                (λ j. ((refl, (refl, tt)), newest_ok ((3, 7) ∷ [])))
                (λ j.
                  if-takes Acknowledges (leb command 8) _ _ (le→leb command 8 h)
                    ((refl, tt), newest_ok []))))

  acknowledged : (p : Packet) → p.packet_type ≤ 2 → p.command ≤ 8 → Acknowledges (replies p)
  acknowledged p kind command =
      if-takes Acknowledges (leb p.packet_type 2) (replies_to p.command) []
        (le→leb p.packet_type 2 kind) (replies-Acknowledges p.command command)

module _ (receiver : Pi.World) (w : World) (framing : Framing w) (hi : ℕ)
    (high : (s : Alex w.Receiver) → w.pulse s sensor_out ≤ hi) (short : hi ≤ 6553)
    (packets : (s : Alex w.Receiver) → IsPacket (w.packet s)) where
  -- One of the nine commands, handled by the firmware: however the reads of the Raspberry Pi's
  -- thread cut the bytes that the firmware wrote, the thread, whose program had not faulted, faults
  -- nowhere and is clear to send after them, and no byte is left over.
  pub handle_packet-acknowledged :
      (p : Packet) (s s' : Alex w.Receiver) (bs : List (List ℕ)) (t : Receiving receiver)
      (before : Pi receiver.Float) (rs : List Read)
      → p.packet_type ≤ 2
      → p.command ≤ 8
      → IsTyped s
      → handle_packet w p s ≡ some s'
      → wires s'.calls ≡ bs ++ wires s.calls
      → IsRunning (handler receiver) (refused receiver) t
      → t.state ≡ some before
      → pending t.receiver ≡ []
      → Fits rs
      → all_bytes rs ≡ in_order bs
      → (t' : Receiving receiver) × (after : Pi receiver.Float) × (receive
            (handler receiver)
            (refused receiver)
            t
            rs
          ≡ some t')
        × (t'.state ≡ some after)
        × (after.clear_to_send_command ≡ true)
        × (pending t'.receiver ≡ [])
  handle_packet-acknowledged p s s' bs t before rs kind command typed run new running sound empty
        fits cut =
      let (t', ps, ran, state, coded, left) =
        receive-replies (partly (Handlers.handle_packet receiver)) (refused receiver) w framing hi
          high short packets p s s' bs t rs typed run new running empty fits cut in
      let (responses, clears) = acknowledged receiver p kind command in
      (
        t',
        told receiver ps before,
        ran,
        state
            ∙ ap (λ m. seen (partly (Handlers.handle_packet receiver)) (refused receiver) ps m)
                sound
            ∙ responses_handled receiver (replies p) ps before responses coded,
        clears ps before coded,
        left,
      )
