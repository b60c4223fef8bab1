-- ===== src/Alex/Encoders.antt =====
-- The wheel encoders and the counters: the interrupt routines and `clearCounters` of alex/alex.ino.
use cg2111a_b.Base.{ℕ, ◌+◌, ◌%◌, ◌^◌, if◌then◌else◌, ◌==◌}
use cg2111a_b.Base.Int.{pos}
use cg2111a_b.Alex.{Alex, World, forwards, backwards, leftwards, rightwards}

-- `++` of an `unsigned long`.
abbrev pub next : ℕ → ℕ
next n = (n + 1) % 2 ^ 32

module _ {R : Type 0} where
  unfoldable pub right_isr : Alex R → Alex R
  right_isr s =
      if s.dir == forwards
      then record s { right_forward_ticks = next s.right_forward_ticks }
      else (if s.dir == backwards
          then record s { right_reverse_ticks = next s.right_reverse_ticks }
          else (if s.dir == leftwards
              then record s { right_forward_turns = next s.right_forward_turns }
              else (if s.dir == rightwards
                  then record s { right_reverse_turns = next s.right_reverse_turns }
                  else s)))

  unfoldable pub clear_counters : Alex R → Alex R
  clear_counters s = record s {
    left_forward_ticks = 0;
    right_forward_ticks = 0;
    left_reverse_ticks = 0;
    right_reverse_ticks = 0;
    left_forward_turns = 0;
    right_forward_turns = 0;
    left_reverse_turns = 0;
    right_reverse_turns = 0;
    forward_dist = 0;
    reverse_dist = 0;
    delta_ticks = 0;
    target_ticks = 0;
    delta_dist = 0;
    new_dist = 0;
  }

  abbrev pub initialize_state : Alex R → Alex R
  initialize_state s = clear_counters s

module _ (w : World) where
  open w use {Receiver}

  -- Centimetres of a number of ticks.
  abbrev pub travelled : ℕ → ℕ
  travelled ticks =
      w.word_of (w.times (w.divide (w.of_word ticks) (w.of_int (pos 4))) (w.literal "20.73"))

  unfoldable pub left_isr : Alex Receiver → Alex Receiver
  left_isr s =
      let ticks = next s.left_forward_ticks in
      let back_ticks = next s.left_reverse_ticks in
      if s.dir == forwards
      then record s { left_forward_ticks = ticks; forward_dist = travelled ticks }
      else (if s.dir == backwards
          then record s { left_reverse_ticks = back_ticks; reverse_dist = travelled back_ticks }
          else (if s.dir == leftwards
              then record s { left_reverse_turns = next s.left_reverse_turns }
              else (if s.dir == rightwards
                  then record s { left_forward_turns = next s.left_forward_turns }
                  else s)))
