-- ===== src/Alex.antt =====
-- The firmware of the Arduino (alex/*.ino): its global variables, the calls that it makes of the
-- Arduino core and of the motor and servo libraries, and what it takes from there. `int` has 16
-- bits and `unsigned long` 32, as on the ATmega2560; `double` is `float` there.
pub mod Motion
pub mod Encoders
pub mod Replies
pub mod Sensors
pub mod Commands
pub mod Main
pub mod Led
pub mod Happenings
pub mod Halting
pub mod Wires
pub mod Readings
pub mod Answering
pub mod Answers
pub mod Reach
pub mod Dispatch
pub mod Losing
pub mod Turning
pub mod Driving
pub mod Framing
pub mod Delivery
pub mod Journey
pub mod Carrying
pub mod Return
pub mod Unheard
pub mod Remote
pub mod Typed
pub mod Ranges
pub mod Running
pub mod Tests
pub mod Going
pub mod Starting
pub mod Arriving
use cg2111a_b.Base.{Option, ℕ, Bool, List, [], ◌∷◌, String, true, false}
use cg2111a_b.Base.Int.{ℤ}
use cg2111a_b.Packet.{Packet}
use cg2111a_b.Serialize.{Result}

-- `TDirection`, and `STOP` of `Tdir`; `GO`, `BACK`, `CCW` and `CW` are the same numbers.
abbrev pub stopped : ℕ
stopped = 0

abbrev pub forwards : ℕ
forwards = 1

abbrev pub backwards : ℕ
backwards = 2

abbrev pub leftwards : ℕ
leftwards = 3

abbrev pub rightwards : ℕ
rightwards = 4

pub data Motor : Type 0 where
  front_left front_right back_left back_right : Motor

-- The calls. `pulse_in` and `read` record that an input was taken, and `set_register` a store to a
-- register of the processor that is never read back.
pub data Event : Type 0 where
  set_speed : Motor → ℤ → Event
  run : Motor → ℕ → Event
  begin : ℕ → Event
  write : List ℕ → Event
  read : List ℕ → Event
  delay delay_microseconds : ℕ → Event
  output_pin input_pin : ℕ → Event
  high low : ℕ → Event
  pulse_in : ℕ → Event
  servo_attach servo_write : ℕ → Event
  servo_detach : Event
  cli sei : Event
  set_register : String → ℕ → Event

-- The global variables, the static state of the library's `deserialize`, and the calls made so
-- far, the last one first.
pub record Alex (Receiver : Type 0) : Type 0 where
  pub dir : ℕ
  pub prevent_collision : Bool
  pub red_freq : ℕ
  pub green_freq : ℕ
  pub blue_freq : ℕ
  pub linearactuatordist : ℕ
  pub left_forward_ticks : ℕ
  pub right_forward_ticks : ℕ
  pub left_reverse_ticks : ℕ
  pub right_reverse_ticks : ℕ
  pub left_forward_turns : ℕ
  pub right_forward_turns : ℕ
  pub left_reverse_turns : ℕ
  pub right_reverse_turns : ℕ
  pub forward_dist : ℕ
  pub reverse_dist : ℕ
  pub delta_dist : ℕ
  pub new_dist : ℕ
  pub delta_ticks : ℕ
  pub target_ticks : ℕ
  pub portd : ℕ
  pub ddrd : ℕ
  pub receiver : Receiver
  pub calls : List Event

abbrev pub emit : {Receiver : Type 0} → Event → Alex Receiver → Alex Receiver
emit e s = record s { calls = e ∷ s.calls }

-- The `float` type and the operations that the code uses on it, with the conversions to
-- `unsigned long` and to `int`; the Arduino library of the framing, with its static state; what
-- `pulseIn` gives on a pin, and what an uninitialised local packet and buffer hold. A state has
-- all calls made before it, so these may differ from one call to the next.
pub record World : Type 1 where
  pub Float : Type 0
  pub literal : String → Float
  pub of_int : ℤ → Float
  pub of_word : ℕ → Float
  pub word_of : Float → ℕ
  pub int_of : Float → ℤ
  pub plus : Float → Float → Float
  pub minus : Float → Float → Float
  pub times : Float → Float → Float
  pub divide : Float → Float → Float
  pub sqrt : Float → Float
  pub ltb_float : Float → Float → Bool
  pub Receiver : Type 0
  pub serialize : Alex Receiver → List ℕ → Packet → ℕ → List ℕ × ℕ
  pub deserialize : Receiver → List ℕ → ℕ → Packet → Option (Receiver × Packet × Result)
  pub pulse : Alex Receiver → ℕ → ℕ
  pub packet : Alex Receiver → Packet
  pub buffer : Alex Receiver → List ℕ
