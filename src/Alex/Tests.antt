-- ===== src/Alex/Tests.antt =====
-- Runs of the firmware, and its theorems at concrete inputs.
pub mod Link
pub mod Remote
pub mod Releasing
pub mod Listening
pub mod Movements
use cg2111a_b.Base.{
  ◌⊎◌, ℕ, ◌+◌, ◌*◌, ◌/◌, ◌-◌, ◌%◌, ◌^◌, ◌≤◌, ◌≡◌, refl, arith, List, [], ◌∷◌, ◌++◌, some, ◌>>=◌,
  if◌then◌else◌, ltb, replicate, take, drop, true, false, String, Bool,
}
use Prim.Native.String.{compare}
use Prim.Native.Nat.{Ordering}
use cg2111a_b.Base.Int.{ℤ, pos, negsuc}
use cg2111a_b.Memory.{memcpy}
use cg2111a_b.Packet.{Packet, packet_bytes}
use cg2111a_b.Packet.Tests.{forward, forward-IsPacket}
use cg2111a_b.Serialize.{Receiver, init, serialize, checksum_loop, comms_bytes}
use cg2111a_b.Serialize.Pending.{IsValid, pending}
use cg2111a_b.Serialize.Calls.{length-pending-lt}
use cg2111a_b.Serialize.Roundtrip.{frame}
use cg2111a_b.Serialize.Tests.{blank, blank-IsComms, init-IsValid}
use cg2111a_b.Pi.{Pi, emit, write, command_stop}
use cg2111a_b.Pi.Serial.{serial_write}
use cg2111a_b.Pi.Send.{send_command, send_packet, run_case, case_of, get_params}
use cg2111a_b.Pi.Tests.{world, locals-IsStack, started}
use cg2111a_b.Alex.{Alex, World, Motor}
use cg2111a_b.Alex.Motion.{stop, left, ccw, move, run_motors, set_speeds}
use cg2111a_b.Alex.Sensors.{extend, extended, current_dist}
use cg2111a_b.Alex.Commands
use cg2111a_b.Alex.Commands.{handle_packet, handle_command_keyboard, run_keyboard, run_common}
use cg2111a_b.Alex.Happenings.{
  Happening, left_tick, right_tick, idle, run_all, IsHalted, last_speed,
}
use cg2111a_b.Alex.Going.{going_left}
use cg2111a_b.Alex.Starting.{start}
use cg2111a_b.Alex.Arriving.{run_all-halts}
use cg2111a_b.Alex.Wires.{Answered}
use cg2111a_b.Alex.Answers.{replies, handle_packet-Answers}
use cg2111a_b.Alex.Readings.{Found, find_color-Found}
use cg2111a_b.Alex.Reach.{reach, extend-reach}
use cg2111a_b.Alex.Losing.{clear_stats-endless}
use cg2111a_b.Alex.Main.{setup, globals}
use cg2111a_b.Alex.Typed.{IsTyped}
use cg2111a_b.Alex.Running.{
  Moment, left_edge, right_edge, finds, Breaks, run_moments, setup_then-IsTyped,
}
use cg2111a_b.Link.{Read, got, failed, Thread, receive}
use cg2111a_b.Link.Turns.{IsRunning}
use cg2111a_b.Pi.Handlers.{packet_error}
use cg2111a_b.Alex.Replies.{send_ok, send_response}
use cg2111a_b.Alex.Wires.{wires}
use cg2111a_b.Alex.Return.{handler, handle_packet-acknowledged}
use cg2111a_b.Alex.Framing.{Framing, deserialize_packet, own_waits, own_delivers, own_sends}
use cg2111a_b.Alex.Delivery.{turns}

pub is_text : String → String → Bool
is_text a b = elim (compare a b) [ Ordering.eq ↦ true | _ ↦ false ]

-- Natural numbers in the place of `float`, the literals cut off.
abbrev pub number : String → ℕ
number s =
    if is_text s "20.73"
    then 20
    else (if is_text s "360.0"
        then 360
        else (if is_text s "100.0"
            then 100
            else (if is_text s "20000.0" then 20000 else (if is_text s "13.5" then 13 else 3))))

abbrev pub magnitude : ℤ → ℕ
magnitude (pos n) = n
magnitude (negsuc n) = 0

-- The library is the Raspberry Pi's framing code.
abbrev pub arduino : World
arduino = record {
  Float = ℕ;
  literal = number;
  of_int = magnitude;
  of_word = λ n. n;
  word_of = λ n. n % 2 ^ 32;
  int_of = λ n. pos n;
  plus = λ a b. a + b;
  minus = λ a b. a - b;
  times = λ a b. a * b;
  divide = λ a b. a / b;
  sqrt = λ n. n / 17;
  ltb_float = ltb;
  Receiver = Receiver;
  serialize = λ s buffer p n. (frame blank (packet_bytes p), 140);
  deserialize = deserialize_packet;
  pulse = λ s pin. 1500;
  packet = λ s. forward;
  buffer = λ s. replicate 140 0;
}

abbrev pub framing : Framing arduino
framing = record {
  Valid = IsValid;
  waiting = pending;
  few = length-pending-lt;
  waits = own_waits;
  delivers = own_delivers;
  sends = λ s p shape. (blank, blank-IsComms, own_sends blank p blank-IsComms shape);
}

abbrev pub reset : Alex Receiver
reset = record {
  dir = 0;
  prevent_collision = false;
  red_freq = 0;
  green_freq = 0;
  blue_freq = 0;
  linearactuatordist = 0;
  left_forward_ticks = 0;
  right_forward_ticks = 0;
  left_reverse_ticks = 0;
  right_reverse_ticks = 0;
  left_forward_turns = 0;
  right_forward_turns = 0;
  left_reverse_turns = 0;
  right_reverse_turns = 0;
  forward_dist = 0;
  reverse_dist = 0;
  delta_dist = 0;
  new_dist = 0;
  delta_ticks = 0;
  target_ticks = 0;
  portd = 0;
  ddrd = 0;
  receiver = init;
  calls = [];
}

-- A turn of 90 degrees to the left takes two ticks of the left wheel.
abbrev quarter : List Happening
quarter = left_tick ∷ idle ∷ right_tick ∷ left_tick ∷ []

run_all-halts_example :
    (s' : Alex Receiver) × (run_all arduino
        (quarter ++ (idle ∷ []))
        (start arduino going_left 90 50 reset)
      ≡ some s')
    × IsHalted arduino s'
run_all-halts_example =
    run_all-halts arduino going_left 90 50 reset quarter
      (unfold is_text in (omega arith, omega arith))

handle_packet-Answers_example :
    (s' : Alex Receiver) × (handle_packet arduino forward reset ≡ some s')
    × Answered arduino (replies forward) reset s'
handle_packet-Answers_example =
    handle_packet-Answers arduino 1500 (λ s. omega arith) (omega arith) (λ s. forward-IsPacket)
      forward reset (ground arith)

find_color-Found_example :
    Found arduino 1000 1500 (λ s. omega arith) (λ s. omega arith) (omega arith) reset
find_color-Found_example =
    find_color-Found arduino 1000 1500 (λ s. omega arith) (λ s. omega arith) (omega arith) reset

extend-reach_example :
    (extend arduino (current_dist (pos 4)) reset
      ≡ (if ltb 0 (reach 4) then extended arduino (reach 4) reset else reset))
    × (reach 4 ≤ 7)
extend-reach_example = extend-reach arduino 4 reset (omega arith)

abbrev pub turning : Alex Receiver
turning = left arduino 90 50 reset

abbrev clear_packet : Packet
clear_packet = record forward { command = 6 }

clear_stats-endless_example :
    (s' : Alex Receiver) × ((handle_packet arduino clear_packet turning >>= λ s1.
    run_all arduino quarter s1)
      ≡ some s')
    × (s'.dir ≡ turning.dir)
    × ((m : Motor) → last_speed m s'.calls ≡ last_speed m turning.calls)
clear_stats-endless_example =
    clear_stats-endless arduino going_left clear_packet turning quarter (omega arith) refl
      (unfold left ccw move run_motors set_speeds in refl)
      (unfold left ccw move run_motors set_speeds in refl)

-- Noise, and two interrupts.
abbrev noise : List Moment
noise = finds [] ∷ left_edge ∷ finds (1 ∷ 2 ∷ 3 ∷ []) ∷ right_edge ∷ []

setup_then-IsTyped_example :
    ((s' : Alex Receiver) × (run_moments arduino noise (setup (globals init 0 0)) ≡ some s')
      × IsTyped s')
    ⊎ Breaks arduino noise (setup (globals init 0 0))
setup_then-IsTyped_example =
    setup_then-IsTyped arduino (λ x. omega arith) 1500 (λ s. omega arith) (omega arith)
      (λ s. forward-IsPacket) init 0 0 noise (omega arith, (tt, (omega arith, (tt, tt))))
