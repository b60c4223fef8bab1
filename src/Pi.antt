-- ===== src/Pi.antt =====
-- The program on the Raspberry Pi (RPi/alex-pi.cpp and the files that it is built from): its
-- global variables, what it does to the outside, and what it takes from there.
pub mod Serial
pub mod Prints
pub mod Colour
pub mod Handlers
pub mod Send
pub mod Control
pub mod Keys
pub mod Main
pub mod Table
pub mod Opening
pub mod Params
pub mod Requests
pub mod Sound
pub mod Steady
pub mod Quiet
pub mod Drive
pub mod Hold
pub mod Presses
pub mod Arrival
pub mod Defined
pub mod Boot
pub mod Threads
pub mod Tests
use cg2111a_b.Base.{ℕ, Bool, List, ◌∷◌, String}
use cg2111a_b.Base.Int.{ℤ, pos, negsuc}
use cg2111a_b.Packet.{Packet}
use cg2111a_b.Serialize.{Comms}

-- RPi/constants.h.
abbrev pub packet_type_command_param : ℕ
packet_type_command_param = 0

abbrev pub packet_type_command_keyboard : ℕ
packet_type_command_keyboard = 1

abbrev pub packet_type_command_time : ℕ
packet_type_command_time = 2

abbrev pub packet_type_response : ℕ
packet_type_response = 3

abbrev pub packet_type_error : ℕ
packet_type_error = 4

abbrev pub packet_type_message : ℕ
packet_type_message = 5

abbrev pub packet_type_hello : ℕ
packet_type_hello = 6

abbrev pub resp_ok : ℕ
resp_ok = 0

abbrev pub resp_status : ℕ
resp_status = 1

abbrev pub resp_bad_packet : ℕ
resp_bad_packet = 2

abbrev pub resp_bad_checksum : ℕ
resp_bad_checksum = 3

abbrev pub resp_bad_command : ℕ
resp_bad_command = 4

abbrev pub resp_bad_response : ℕ
resp_bad_response = 5

abbrev pub resp_color : ℕ
resp_color = 6

abbrev pub resp_dist : ℕ
resp_dist = 7

-- `TCommandType`.
pub data CommandType : Type 0 where
  command_forward command_reverse command_turn_left command_turn_right : CommandType
  command_stop command_get_stats command_clear_stats : CommandType
  command_color command_dist command_lcd : CommandType

abbrev pub command_code : CommandType → ℕ
command_code command_forward = 0
command_code command_reverse = 1
command_code command_turn_left = 2
command_code command_turn_right = 3
command_code command_stop = 4
command_code command_get_stats = 5
command_code command_clear_stats = 6
command_code command_color = 7
command_code command_dist = 8
command_code command_lcd = 13

-- An argument of `printf` or `printw`.
pub data Arg (Float : Type 0) : Type 0 where
  int : ℤ → Arg Float
  word : ℕ → Arg Float
  char : ℕ → Arg Float
  text : List ℕ → Arg Float
  float : Float → Arg Float

-- `struct termios`, as far as RPi/serial.cpp and `cfmakeraw` set it; `csize` is the number of data bits, and
-- `other_output` any of the other flags of `c_oflag`.
pub record Options : Type 0 where
  pub ispeed : ℕ
  pub ospeed : ℕ
  pub csize : ℕ
  pub clocal : Bool
  pub cread : Bool
  pub parenb : Bool
  pub parodd : Bool
  pub cstopb : Bool
  pub crtscts : Bool
  pub inpck : Bool
  pub istrip : Bool
  pub ixon : Bool
  pub ixoff : Bool
  pub ixany : Bool
  pub icanon : Bool
  pub echo : Bool
  pub echoe : Bool
  pub isig : Bool
  pub ignbrk : Bool
  pub brkint : Bool
  pub parmrk : Bool
  pub inlcr : Bool
  pub igncr : Bool
  pub icrnl : Bool
  pub echonl : Bool
  pub iexten : Bool
  pub opost : Bool
  pub other_output : Bool

-- The calls that reach the outside: the two kinds of output, the curses screen, waiting, the
-- serial port, and the SDL window.
pub data Event (Float : Type 0) : Type 0 where
  printf : String → List (Arg Float) → Event Float
  printw : String → List (Arg Float) → Event Float
  initscr cbreak noecho nodelay endwin clear refresh : Event Float
  sleep : ℕ → Event Float
  write : List ℕ → Event Float
  cout : String → Event Float
  perror : String → Event Float
  fcntl : ℤ → Event Float
  tcsetattr : ℤ → Options → Event Float
  close : ℤ → Event Float
  sdl_init create_window create_renderer render_clear render_present : Event Float
  destroy_renderer destroy_window sdl_quit : Event Float

-- The global variables, and the calls made so far, the last one first.
pub record Pi (Float : Type 0) : Type 0 where
  pub fd : ℤ
  pub exit_flag : Bool
  pub commands_sent : ℕ
  pub speed : ℤ
  pub delay_time : ℤ
  pub clear_to_send_command : Bool
  pub keyboard_mode : ℕ
  pub previous_command : ℕ
  pub calls : List (Event Float)

abbrev pub emit : {Float : Type 0} → Event Float → Pi Float → Pi Float
emit e s = record s { calls = e ∷ s.calls }

-- What uninitialised local variables hold: the `TComms` and the buffer of a packet that is being
-- sent, and the packet of a command.
pub record Stack : Type 0 where
  pub slot : Comms
  pub buffer : List ℕ
  pub packet : Packet

-- What `scanf("%d %d", ...)` assigned.
pub data Scan : Type 0 where
  neither : Scan
  first : ℤ → Scan
  both : ℤ → ℤ → Scan

-- The `float` type and the operations that the code uses on it, and what the stack and the
-- keyboard hold at a call. A state has all calls made before it, so these may differ from one call to
-- the next.
pub record World : Type 1 where
  pub Float : Type 0
  pub of_word : ℕ → Float
  pub divide : Float → Float → Float
  pub times : Float → Float → Float
  pub ltb_float : Float → Float → Bool
  pub stack : Pi Float → Stack
  pub scan : Pi Float → Scan

-- A turn of a control that reads inputs of type `A`: it waits for more of them, or it went
-- through, leaving some of them to be read.
pub data Progress (A Float : Type 0) : Type 0 where
  waits : Progress A Float
  went : List A → Pi Float → Progress A Float
