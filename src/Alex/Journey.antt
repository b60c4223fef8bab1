-- ===== src/Alex/Journey.antt =====
-- A command of the Raspberry Pi's program, from the character (`sendCommand` of RPi/usart.cpp) to
-- the motors (alex/*.ino).
use cg2111a_b.Base.{
  ℕ, ◌≤◌, ◌≡◌, refl, ap, sym, ◌∙◌, arith, List, [], ◌∷◌, ◌++◌, some, length, All, Option, true,
  false,
}
use cg2111a_b.Base.Int.{pos, ◌≤ℤ◌}
use cg2111a_b.Packet.{packet_bytes}
use cg2111a_b.Packet.Layout.{IsPacket}
use cg2111a_b.Serialize.{packet_size}
use cg2111a_b.Serialize.Roundtrip.{frame}
use cg2111a_b.Pi.{Pi, CommandType, command_code, command_stop}
use cg2111a_b.Pi
use cg2111a_b.Pi.Send.{send_command}
use cg2111a_b.Pi.Table.{requested, kind_of_mode}
use cg2111a_b.Pi.Params.{IsStack, written}
use cg2111a_b.Pi.Requests.{Sends, send_command-Effect}
use cg2111a_b.Pi.Keys.{Keys, key_up, on_event, is_quiet}
use cg2111a_b.Pi.Hold.{key_up_stops}
use cg2111a_b.Pi.Sound.{some_inj}
use cg2111a_b.Alex.{Alex, World}
use cg2111a_b.Alex.Motion.{stop}
use cg2111a_b.Alex.Replies.{send_ok}
use cg2111a_b.Alex.Commands.{case_of, run_common, halt}
use cg2111a_b.Alex.Happenings.{IsHalted, stop-IsHalted}
use cg2111a_b.Alex.Dispatch.{dispatched}
use cg2111a_b.Alex.Framing.{Framing, Handled}
use cg2111a_b.Alex.Delivery.{joined, turns, turns-handles}

kind_of_mode_low : (mode : ℕ) → kind_of_mode mode ≤ 2
kind_of_mode_low mode = ground arith

module _ (sender : Pi.World) (stacks : (s : Pi sender.Float) → IsStack (sender.stack s)) (w : World)
    (framing : Framing w) (packets : (s : Alex w.Receiver) → IsPacket (w.packet s))
    (buffers : (s : Alex w.Receiver) → length (w.buffer s) ≡ packet_size) where
  -- A packet that was put on the wire, in the turns of the firmware's loop.
  pub sent-Handled :
      (mode : ℕ) (code : CommandType) (s s' : Pi sender.Float) (before : List (List ℕ)) (b : ℕ)
      (last : List ℕ) (a : Alex w.Receiver)
      → Sends mode code s s'
      → written s'.calls ≡ (joined before ++ (b ∷ last)) ∷ written s.calls
      → framing.Valid a.receiver
      → framing.waiting a.receiver ≡ []
      → All (λ piece. length piece ≤ packet_size) before
      → length (b ∷ last) ≤ packet_size
      → Handled w framing (kind_of_mode mode) code (turns w (before ++ ((b ∷ last) ∷ [])) a)
  sent-Handled mode code s s' before b last a sends new valid empty pieces fits =
      let bytes = joined before ++ (b ∷ last) in
      let wire : bytes ∷ written s.calls
          ≡ frame sends.slot (packet_bytes sends.packet) ∷ written s.calls =
        sym new ∙ sends.wire in
      let bytes_ok : bytes ≡ frame sends.slot (packet_bytes sends.packet) = cc in
      let (t, handled, valid', empty') =
        turns-handles w framing packets buffers before b last a sends.slot sends.packet valid pieces
          fits sends.slot_shape sends.packet_shape (ap (λ q. q ++ bytes) empty ∙ bytes_ok) in
      record {
        packet = sends.packet;
        before = t;
        handled = handled;
        kind_ok = sends.kind;
        command_ok = sends.command;
        valid = valid';
        empty = empty';
      }

  -- A stop that was handled.
  pub Handled-halts :
      (mode : ℕ) (ran : Option (Alex w.Receiver))
      → Handled w framing (kind_of_mode mode) command_stop ran
      → (a : Alex w.Receiver) × (ran ≡ some a) × IsHalted w a
  Handled-halts mode ran h =
      let case : case_of h.packet.command ≡ halt =
        ap case_of h.command_ok ∙ (unfold case_of in refl) in
      let low : h.packet.packet_type ≤ 2 = rw h.kind_ok (kind_of_mode_low mode) in
      let halted = stop w (send_ok w h.before) in
      (
        halted,
        h.handled ∙ dispatched w halt h.packet h.before tt case low ∙ (unfold run_common in refl),
        stop-IsHalted w (send_ok w h.before),
      )

  -- A character that asks for a command, typed with the port open: however the turns of the
  -- firmware's loop find the bytes that it put on the wire, the last of them handles a packet of
  -- the type of the mode with the command of the character, and no byte is left waiting.
  pub send_command-Handled :
      (c : ℕ) (code : CommandType) (s s' : Pi sender.Float) (before : List (List ℕ)) (b : ℕ)
      (last : List ℕ) (a : Alex w.Receiver)
      → requested c ≡ some code
      → pos 0 ≤ℤ s.fd
      → send_command sender c s ≡ some s'
      → written s'.calls ≡ (joined before ++ (b ∷ last)) ∷ written s.calls
      → framing.Valid a.receiver
      → framing.waiting a.receiver ≡ []
      → All (λ piece. length piece ≤ packet_size) before
      → length (b ∷ last) ≤ packet_size
      → Handled w framing
          (kind_of_mode s.keyboard_mode)
          code
          (turns w (before ++ ((b ∷ last) ∷ [])) a)
  send_command-Handled c code s s' before b last a asks port run new valid empty pieces fits =
      let (s1, run1, effect, _) = send_command-Effect sender stacks c s port in
      let same : s1 ≡ s' = cc in
      let sends : Sends s.keyboard_mode code s s1 = rw asks at effect in
      sent-Handled s.keyboard_mode code s s1 before b last a sends
        (ap (λ t. written t.calls) same ∙ new) valid empty pieces fits

  -- The stop of the Raspberry Pi, sent in any mode with the port open, halts the rover, whatever
  -- it was doing and however the turns of its loop find the bytes.
  pub send_command-halts :
      (c : ℕ) (s s' : Pi sender.Float) (before : List (List ℕ)) (b : ℕ) (last : List ℕ)
      (a : Alex w.Receiver)
      → requested c ≡ some command_stop
      → pos 0 ≤ℤ s.fd
      → send_command sender c s ≡ some s'
      → written s'.calls ≡ (joined before ++ (b ∷ last)) ∷ written s.calls
      → framing.Valid a.receiver
      → framing.waiting a.receiver ≡ []
      → All (λ piece. length piece ≤ packet_size) before
      → length (b ∷ last) ≤ packet_size
      → (a' : Alex w.Receiver) × (turns w (before ++ ((b ∷ last) ∷ [])) a ≡ some a') × IsHalted w a'
  send_command-halts c s s' before b last a asks port run new valid empty pieces fits =
      Handled-halts s.keyboard_mode (turns w (before ++ ((b ∷ last) ∷ [])) a) (
        send_command-Handled c command_stop s s' before b last a asks port run new valid empty
          pieces fits)

  -- In the loop of `keypressControl`, with the port open and a key held: the release of a key that
  -- is not one of the quiet ones halts the rover, whatever it was doing and however the turns of
  -- its loop find the bytes.
  pub on_event-halts :
      (key_name : ℕ → ℕ) (key : ℕ) (k k' : Keys) (s s' : Pi sender.Float) (before : List (List ℕ))
      (b : ℕ) (last : List ℕ) (a : Alex w.Receiver)
      → pos 0 ≤ℤ s.fd
      → k.key_already_pressed ≡ true
      → is_quiet key ≡ false
      → on_event sender key_name (key_up key) k s ≡ some (k', s')
      → written s'.calls ≡ (joined before ++ (b ∷ last)) ∷ written s.calls
      → framing.Valid a.receiver
      → framing.waiting a.receiver ≡ []
      → All (λ piece. length piece ≤ packet_size) before
      → length (b ∷ last) ≤ packet_size
      → (a' : Alex w.Receiver) × (turns w (before ++ ((b ∷ last) ∷ [])) a ≡ some a') × IsHalted w a'
  on_event-halts key_name key k k' s s' before b last a port held loud run new valid empty pieces
        fits =
      let (s1, run1, sends) = key_up_stops sender key_name key k s stacks port held loud in
      let same : s1 ≡ s' = ap (λ r. r.1) (some_inj (sym run1 ∙ run)) in
      Handled-halts s.keyboard_mode (turns w (before ++ ((b ∷ last) ∷ [])) a) (
        sent-Handled s.keyboard_mode command_stop s s1 before b last a sends
          (ap (λ t. written t.calls) same ∙ new) valid empty pieces fits)
