-- ===== src/Pi/Tests.antt =====
-- Runs of the Raspberry Pi's program, and its theorems at concrete inputs.
use cg2111a_b.Base.{
  if◌then◌else◌, ◌==◌, List, ℕ, ◌≡◌, ◌≢◌, refl, [], ◌∷◌, Option, some, ◌>>=◌, true, false,
  replicate, arith, ltb, ◌/◌, ◌*◌,
}
use cg2111a_b.Base.Int.{ℤ, pos, negsuc, ◌≤ℤ◌}
use cg2111a_b.Packet.Tests.{forward, forward-IsPacket}
use cg2111a_b.Serialize.Tests.{blank, blank-IsComms}
use cg2111a_b.Pi.{
  Event, Options, emit, write, command_turn_left, tcsetattr, Pi, World, went, Stack, both,
  command_stop, printf, char, sleep,
}
use cg2111a_b.Pi.Prints.{printf_commands, commands_text}
use cg2111a_b.Pi.Serial.{Ports, connect, start_serial}
use cg2111a_b.Pi.Opening.{Outcome, Is8n1, IsRaw, start_serial-Is8n1}
use cg2111a_b.Pi.Boot.{boot_defined, globals-IsSound}
use cg2111a_b.Pi.Send.{send_command, run_case, leave_curses, case_of}
use cg2111a_b.Pi.Control.{params_control}
use cg2111a_b.Pi.Keys.{Keys, key_up, no_keys, on_event, key_case, send, polled, opened}
use cg2111a_b.Pi.Main.{globals, boot, Inputs, control_turn}
use cg2111a_b.Pi.Handlers.{handle_packet}
use cg2111a_b.Pi.Params.{IsStack}
use cg2111a_b.Pi.Requests.{Sends, Effect, send_command-Effect}
use cg2111a_b.Pi.Table.{requested}
use cg2111a_b.Pi.Drive.{send_command-carried}
use cg2111a_b.Serialize.Roundtrip.{frame}
use cg2111a_b.Packet.{Packet, packet_bytes, param}
use cg2111a_b.Pi.Hold.{key_up_stops, quiet_up_loses_stop}
use cg2111a_b.Pi.Defined.{IsOpenTurn, control_turn_defined}
use cg2111a_b.Pi.Threads.{between, here, further, receive_between}
use cg2111a_b.Pi.Threads.Holding.{AreNames}
use cg2111a_b.Pi.Threads.Invariant.{Good, Reach-boot}
use cg2111a_b.Pi.Sound.{IsSound, kept-IsSound}
use cg2111a_b.Pi.Threads.Turns.{control_turn-IsSound}

abbrev pub started : {Float : Type 0} → ℤ → Pi Float
started fd = record globals { fd = fd }

abbrev options : Options
options = record {
  ispeed = 0;
  ospeed = 0;
  csize = 7;
  clocal = false;
  cread = false;
  parenb = true;
  parodd = false;
  cstopb = true;
  crtscts = true;
  inpck = false;
  istrip = false;
  ixon = true;
  ixoff = false;
  ixany = false;
  icanon = true;
  echo = true;
  echoe = true;
  isig = true;
  ignbrk = true;
  brkint = true;
  parmrk = true;
  inlcr = true;
  igncr = true;
  icrnl = true;
  echonl = true;
  iexten = true;
  opost = true;
  other_output = true;
}

abbrev locals : Stack
locals = record { slot = blank; buffer = replicate 140 0; packet = forward }

pub locals-IsStack : IsStack locals
locals-IsStack = record { slot = blank-IsComms; buffer = refl; packet = forward-IsPacket }

-- Natural numbers in the place of `float`.
abbrev pub world : World
world = record {
  Float = ℕ;
  of_word = λ n. n;
  divide = λ a b. a / 100;
  times = λ a b. a * b;
  ltb_float = ltb;
  stack = λ s. locals;
  scan = λ s. both (pos 50) (pos 75);
}

abbrev pub name_of : ℕ → ℕ
name_of key = key

name_ne : (key c : ℕ) → key_case c ≢ send → key_case key ≡ send → key ≢ c
name_ne key c ne e q = ne (rw (← q) e)

names : AreNames name_of
names key e = (name_ne key b'3' (λ h. ground arith) e, name_ne key b'4' (λ h. ground arith) e)

send_command-Effect_example :
    (s' : Pi ℕ) × (send_command world b'w' (started (pos 3)) ≡ some s')
    × Effect (requested b'w') 1 (started (pos 3)) s'
    × (s'.fd ≡ pos 3)
send_command-Effect_example =
    send_command-Effect world (λ s. locals-IsStack) b'w' (started (pos 3)) (omega arith)

abbrev pub held : Keys
held = record { quit = false; key_already_pressed = true; stop = false; informed = false }

key_up_stops_example :
    (s' : Pi ℕ) × (on_event world name_of (key_up b'w') held (started (pos 3)) ≡ some (no_keys, s'))
    × Sends 1 command_stop (started (pos 3)) s'
key_up_stops_example =
    key_up_stops world name_of b'w' held (started (pos 3)) (λ s. locals-IsStack) (omega arith) refl
      refl

quiet_up_loses_stop_example :
    (on_event world name_of (key_up b'u') held (started (pos 3)) >>= λ r.
    on_event world name_of (key_up b'w') r.0 r.1)
    ≡ some (no_keys, polled (started (pos 3)))
quiet_up_loses_stop_example =
    quiet_up_loses_stop world name_of b'u' b'w' held (started (pos 3)) refl refl

-- A message that fills its array, so that it has no terminator.
abbrev message : Packet
message = record forward { packet_type = 5; text = replicate 32 65 }

abbrev inputs : Inputs
inputs = record { chars = b'2' ∷ []; presses = []; polls = [] }

control_turn_defined_example :
    (r : Option (Inputs × Pi ℕ)) × (control_turn world name_of inputs (started (pos 3)) ≡ some r)
    × IsOpenTurn r
control_turn_defined_example =
    control_turn_defined world (λ s. locals-IsStack) name_of inputs (started (pos 3)) (omega arith)

-- The state after a 2 was typed.
abbrev after_two : Pi ℕ
after_two = record (started (pos 3)) {
  keyboard_mode = 2;
  calls =
      printf "Switched to Key Hold mode\n" []
      ∷ sleep 1
      ∷ printf "send command : %c\n" (char b'2' ∷ [])
      ∷ printf "Mode: 1=param control, 2=keyboard control\n" []
      ∷ printf commands_text []
      ∷ [];
}

two_typed : params_control world (b'2' ∷ []) (started (pos 3)) ≡ some (went [] after_two)
unfolding params_control printf_commands send_command run_case case_of leave_curses
two_typed = refl

turn_of_two :
    control_turn world name_of inputs (started (pos 3))
    ≡ some (some (record inputs { chars = [] }, after_two))
unfolding control_turn
turn_of_two = rw two_typed refl

control_turn-IsSound_example : IsSound after_two
control_turn-IsSound_example =
    control_turn-IsSound world name_of inputs (record inputs { chars = [] }) (started (pos 3))
      after_two names refl turn_of_two
      (kept-IsSound globals (started (pos 3)) refl refl refl refl refl globals-IsSound)

-- The second attempt opens descriptor 3.
abbrev ports : Ports
ports = record {
  open_port = λ n. if n == 2 then pos 3 else negsuc 0;
  attributes = λ fd. options;
  makeraw = λ o. record o {
    ignbrk = false;
    brkint = false;
    parmrk = false;
    inlcr = false;
    igncr = false;
    icrnl = false;
    echonl = false;
    iexten = false;
    istrip = false;
    ixon = false;
    icanon = false;
    echo = false;
    isig = false;
    opost = false;
    parenb = false;
    csize = 8;
  };
}

boot_defined_example :
    (s : Pi ℕ) × (boot world ports globals ≡ some s) × Outcome ports.open_port 0 5 s.fd
boot_defined_example = boot_defined world (λ s. locals-IsStack) ports

booted : (s : Pi ℕ) × (boot world ports globals ≡ some s)
booted = let (s, run, opened) = boot_defined world (λ s. locals-IsStack) ports in (s, run)

greeted : (s : Pi ℕ) × (handle_packet world (record forward { packet_type = 3 }) booted.0 ≡ some s)
unfolding handle_packet
greeted = (_, refl)

Reach-boot_example : Good (between greeted.0) × (greeted.0.delay_time ≤ℤ pos 200)
Reach-boot_example = Reach-boot world name_of names ports booted.0 (between greeted.0) booted.1 (
    further (between booted.0) (between greeted.0) here
      (receive_between (record forward { packet_type = 3 }) booted.0 greeted.0 greeted.1))

abbrev empty : Pi ℕ
empty = globals

ports-IsRaw : (o : Options) → IsRaw (ports.makeraw o)
ports-IsRaw o = record {
  unbroken = refl;
  unchanged_input = refl;
  unechoed = refl;
  unchanged_output = refl;
  eight_bits = refl;
  no_parity = refl;
}

start_serial-Is8n1_example :
    (o : Options) × (rest : List (Event ℕ)) × ((start_serial ports 9600 8 b'N' 1 5 empty).calls
      ≡ tcsetattr (start_serial ports 9600 8 b'N' 1 5 empty).fd o ∷ rest)
    × Is8n1 o
    × (o.ospeed ≡ 9600)
    × (o.ispeed ≡ 9600)
start_serial-Is8n1_example =
    start_serial-Is8n1 ports 9600 5 empty ports-IsRaw (unfold start_serial connect in refl)

-- The key press mode.
abbrev pub pressing : Pi ℕ
pressing = record (started (pos 3)) { keyboard_mode = 3 }

send_command-carried_example :
    (p : Packet) × (send_command world b'a' pressing
      ≡ some (emit (write (frame blank (packet_bytes p))) pressing))
    × (p.command ≡ 2)
    × (param p 0 ≡ 40)
send_command-carried_example =
    send_command-carried world (λ s. locals-IsStack) b'a' command_turn_left pressing
      (unfold case_of in refl) (omega arith) (omega arith) (omega arith)
