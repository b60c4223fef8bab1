-- ===== src/Alex/Led.antt =====
-- The LED on port D and its timer: alex/led.ino. `setup` does not start the timer. The static
-- `state` of `toggleLED` and `ledcount` of alex/alex.ino are kept here.
use cg2111a_b.Base.{ℕ, ◌+◌, ◌%◌, Option, none, some, if◌then◌else◌, ◌==◌, ltb}
use Prim.Native.Nat.{bit_and, bit_or}
use cg2111a_b.Alex.{Event, set_register, sei}
use cg2111a_b.Base.{List, ◌∷◌}

pub record Led : Type 0 where
  pub port : ℕ
  pub state : ℕ
  pub ledcount : ℕ
  pub timsk : ℕ
  pub calls : List Event

abbrev set_to : Event → Led → Led
set_to e s = record s { calls = e ∷ s.calls }

unfoldable pub init_timer : Led → Led
init_timer s =
    let top = set_to (set_register "OCR0A" 50) (set_to (set_register "TCNT0" 0) s) in
    let mode = set_to (set_register "TCCR0A" 0b01000010) top in
    record mode { timsk = bit_or mode.timsk 0b10 }

unfoldable pub start_timer : Led → Led
start_timer s = set_to sei (set_to (set_register "TCCR0B" 0b00000101) s)

unfoldable pub led_on : ℕ → ℕ
led_on port = bit_and (bit_or port 0b00000011) 0b11111101

unfoldable pub led_off : ℕ → ℕ
led_off port = bit_or (bit_and port 0b11111100) 0b00000010

unfoldable pub toggle : Led → Led
toggle s =
    if s.state == 1
    then record s { port = led_on s.port; state = 0 }
    else record s { port = led_off s.port; state = 1 }

-- The interrupt of the timer. The count of `int` that overflows is undefined behaviour, `none`.
unfoldable pub timer_isr : Led → Option Led
timer_isr s =
    let counted = record s { ledcount = s.ledcount + 1 } in
    if ltb s.ledcount 32767
    then some (if (s.ledcount + 1) % 10000 == 0 then toggle counted else counted)
    else none
