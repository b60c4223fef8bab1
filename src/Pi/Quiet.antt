-- ===== src/Pi/Quiet.antt =====
-- What the receiving thread may change on the Raspberry Pi: the handlers of RPi/usart.cpp and
-- RPi/colour.cpp print, and they raise `clear_to_send_command`.
use cg2111a_b.Base.{
  sym, ◌∙◌, none≢some, Option, none, some, ◌⊎◌, Option-cases, ==_iff, ◌≡◌, refl, Bool, true, false,
  List, [], String, if◌then◌else◌, ◌==◌, ◌||◌, Bool-cases, inl, inr,
}
use cg2111a_b.Memory.{c_string}
use cg2111a_b.Packet.{Packet}
use cg2111a_b.Serialize.{Result, packet_bad, packet_checksum_bad}
use cg2111a_b.Pi.{
  Pi, Event, World, emit, printf, resp_bad_packet, resp_bad_checksum, resp_bad_command,
  resp_bad_response, packet_type_response, packet_type_error, packet_type_message,
}
use cg2111a_b.Pi.Colour.{handle_color, handle_distance}
use cg2111a_b.Pi.Handlers.{
  handle_error, packet_error, handle_error_response, handle_response, handle_packet, handle_message,
  acknowledged,
}
use cg2111a_b.Pi.Params.{written}
use cg2111a_b.Pi.Sound.{some_inj, curses_on, IsSound, kept-IsSound}

pub record IsQuiet {Float : Type 0} (s s' : Pi Float) : Type 0 where
  pub fd : s'.fd ≡ s.fd
  pub exit_flag : s'.exit_flag ≡ s.exit_flag
  pub commands_sent : s'.commands_sent ≡ s.commands_sent
  pub speed : s'.speed ≡ s.speed
  pub delay_time : s'.delay_time ≡ s.delay_time
  pub keyboard_mode : s'.keyboard_mode ≡ s.keyboard_mode
  pub previous_command : s'.previous_command ≡ s.previous_command
  pub wire : written s'.calls ≡ written s.calls
  pub screen : curses_on s'.calls ≡ curses_on s.calls

module _ {Float : Type 0} where
  IsQuiet-if :
      (s : Pi Float) (b : Bool) (x y : Pi Float)
      → IsQuiet s x
      → IsQuiet s y
      → IsQuiet s (if b then x else y)
  IsQuiet-if s true x y h k = h
  IsQuiet-if s false x y h k = k

  -- Other calls, which leave the wire and the screen alone, and another value of the flag.
  said :
      (s : Pi Float) (calls : List (Event Float)) (clear : Bool)
      → written calls ≡ written s.calls
      → curses_on calls ≡ curses_on s.calls
      → IsQuiet s (record s { clear_to_send_command = clear; calls = calls })
  said s calls clear wire screen = record {
    fd = refl;
    exit_flag = refl;
    commands_sent = refl;
    speed = refl;
    delay_time = refl;
    keyboard_mode = refl;
    previous_command = refl;
    wire = wire;
    screen = screen;
  }

  pub IsQuiet-refl : (s : Pi Float) → IsQuiet s s
  IsQuiet-refl s = said s s.calls s.clear_to_send_command refl refl

  pub IsQuiet-trans : (r s t : Pi Float) → IsQuiet r s → IsQuiet s t → IsQuiet r t
  IsQuiet-trans r s t h k = record {
    fd = k.fd ∙ h.fd;
    exit_flag = k.exit_flag ∙ h.exit_flag;
    commands_sent = k.commands_sent ∙ h.commands_sent;
    speed = k.speed ∙ h.speed;
    delay_time = k.delay_time ∙ h.delay_time;
    keyboard_mode = k.keyboard_mode ∙ h.keyboard_mode;
    previous_command = k.previous_command ∙ h.previous_command;
    wire = k.wire ∙ h.wire;
    screen = k.screen ∙ h.screen;
  }

  pub IsQuiet-IsSound : (s s' : Pi Float) → IsQuiet s s' → IsSound s → IsSound s'
  IsQuiet-IsSound s s' q h =
      kept-IsSound s s' q.speed q.delay_time q.keyboard_mode q.exit_flag q.screen h

  pub packet_error-IsQuiet : (r : Result) (s : Pi Float) → IsQuiet s (packet_error r s)
  unfolding packet_error handle_error
  packet_error-IsQuiet packet_bad s = said s _ _ refl refl
  packet_error-IsQuiet packet_checksum_bad s = said s _ _ refl refl
  packet_error-IsQuiet _ s = said s _ _ refl refl

  handle_error_response-IsQuiet :
      (p : Packet) (s : Pi Float) → IsQuiet s (handle_error_response p s)
  unfolding handle_error_response
  handle_error_response-IsQuiet p s =
      IsQuiet-if s (p.command == resp_bad_packet) _ _
        (printed "Arduino received bad magic number\n")
        (IsQuiet-if s (p.command == resp_bad_checksum) _ _
          (printed "Arduino received bad checksum\n")
          (IsQuiet-if s (p.command == resp_bad_command) _ _
            (printed "Arduino received bad command\n")
            (IsQuiet-if s (p.command == resp_bad_response) _ _
              (printed "Arduino received unexpected response\n")
              (printed "Arduino reports a weird error\n"))))
    where
      printed : (format : String) → IsQuiet s (emit (printf format []) s)
      printed format = said s _ _ refl refl

module _ (w : World) where
  open w use {Float}

  handle_color-IsQuiet : (p : Packet) (s : Pi Float) → IsQuiet s (handle_color w p s)
  unfolding handle_color
  handle_color-IsQuiet p s = IsQuiet-if s _ _ _ (said s _ _ refl refl) (said s _ _ refl refl)

  handle_distance-IsQuiet : (p : Packet) (s : Pi Float) → IsQuiet s (handle_distance w p s)
  unfolding handle_distance
  handle_distance-IsQuiet p s = IsQuiet-if s _ _ _ (said s _ _ refl refl) (said s _ _ refl refl)

  acknowledged-IsQuiet : (p : Packet) (s : Pi Float) → IsQuiet s (acknowledged w s)
  acknowledged-IsQuiet p s = elim (Bool-cases (s.keyboard_mode == 3 || s.keyboard_mode == 4)) [
    | inl e ↦ rw e (said s _ _ refl refl)
    | inr e ↦ rw e (said s _ _ refl refl)
  ]

  handle_response-IsQuiet : (p : Packet) (s : Pi Float) → IsQuiet s (handle_response w p s)
  unfolding handle_response
  handle_response-IsQuiet p s = IsQuiet-if s _ _ _ (acknowledged-IsQuiet p s) (
      IsQuiet-if s _ _ _ (said s _ _ refl refl) (
        IsQuiet-if s _ _ _ (handle_color-IsQuiet p s)
          (IsQuiet-if s _ _ _ (handle_distance-IsQuiet p s) (said s _ _ refl refl))))

  -- The packets that `handlePacket` faults on: messages whose text has no terminator.
  abbrev pub Unended : Packet → Type 0
  Unended p = (p.packet_type ≡ packet_type_message) × (c_string p.text ≡ none)

  abbrev pub Quietly : Pi Float → Option (Pi Float) → Type 0
  Quietly s m = (s' : Pi Float) × (m ≡ some s') × IsQuiet s s'

  handle_message-Quietly :
      (p : Packet) (s : Pi Float)
      → Quietly s (handle_message p s) ⊎ ((c_string p.text ≡ none) × (handle_message p s ≡ none))
  unfolding handle_message
  handle_message-Quietly p s = elim (Option-cases (c_string p.text)) [
    | inl e ↦ inr (e, rw e refl)
    | inr (message, e) ↦ rw e (inl (_, refl, said s _ _ refl refl))
  ]

  pub handle_packet-IsQuiet :
      (p : Packet) (s : Pi Float)
      → Quietly s (handle_packet w p s) ⊎ (Unended p × (handle_packet w p s ≡ none))
  unfolding handle_packet
  handle_packet-IsQuiet p s = elim (Bool-cases (p.packet_type == packet_type_response)) [
    | inl e ↦ rw e (inl (_, refl, handle_response-IsQuiet p s))
    | inr e ↦ rw e (elim (Bool-cases (p.packet_type == packet_type_error)) [
      | inl k ↦ rw k (inl (_, refl, handle_error_response-IsQuiet p s))
      | inr k ↦ rw k (elim (Bool-cases (p.packet_type == packet_type_message)) [
        | inl j ↦ rw j (elim (handle_message-Quietly p s) [
          | inl quiet ↦ inl quiet
          | inr (unended, fault) ↦
              inr (((==_iff p.packet_type packet_type_message).0 j, unended), fault)
        ])
        | inr j ↦ rw j (inl (s, refl, said s _ _ refl refl))
      ])
    ])
  ]

  pub handled-IsQuiet :
      (p : Packet) (s s' : Pi Float) → handle_packet w p s ≡ some s' → IsQuiet s s'
  handled-IsQuiet p s s' run = elim (handle_packet-IsQuiet p s) [
    | inl (s1, e, quiet) ↦ let same : s1 ≡ s' = some_inj (sym e ∙ run) in rw (← same) quiet
    | inr (unended, fault) ↦ absurd (none≢some (sym fault ∙ run))
  ]
