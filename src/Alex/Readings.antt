-- ===== src/Alex/Readings.antt =====
-- The colour sensor's readings (alex/colour_sensor.ino): the averages of pulses that are not too
-- long, and the range of the actuator that carries the sensor.
use cg2111a_b.Base.{
  ℕ, zero, suc, ◌+◌, ◌*◌, ◌/◌, ◌≤◌, ◌≡◌, refl, ap, ◌∙◌, arith, true, false, List, ◌∷◌, some,
}
use native.Mathlib.Nat.{suc-mul}
use cg2111a_b.Base.Int.{pos, ◌+ℤ◌, to_word}
use cg2111a_b.Alex.{Alex, World, Event, emit, delay, pulse_in}
use cg2111a_b.Alex.Sensors.{
  filter, settled, color_sensor_delay, sensor_out, to_int, is_int, add_readings, average_freq,
  find_color,
}
use cg2111a_b.Alex.Wires.{wires}

abbrev pub IsBetween : ℕ → ℕ → ℕ → Type 0
IsBetween lo hi n = (lo ≤ n) × (n ≤ hi)

module _ (w : World) (lo hi : ℕ) (low : (s : Alex w.Receiver) → lo ≤ w.pulse s sensor_out)
    (high : (s : Alex w.Receiver) → w.pulse s sensor_out ≤ hi) (short : hi ≤ 6553) where
  open w use {Receiver}

  int_of_reading : (n : ℕ) → n ≤ hi → to_int n ≡ pos n
  int_of_reading n h = ground arith

  sum_of_readings : (t n : ℕ) → pos t +ℤ pos n ≡ pos (t + n)
  unfolding ◌+ℤ◌
  sum_of_readings t n = ground arith

  in_int : (t : ℕ) → t ≤ 32767 → is_int (pos t) ≡ true
  in_int t h = ground arith

  -- The sum of the readings that are left stays an `int`, and only the calls grow.
  record Sums (left t : ℕ) (s : Alex Receiver) : Type 0 where
    total : ℕ
    calls : List Event
    run : add_readings w left (pos t) s ≡ some (pos total, record s { calls = calls })
    least : t + left * lo ≤ total
    most : total ≤ t + left * hi
    unwritten : wires calls ≡ wires s.calls

  add_readings-Sums : (left t : ℕ) (s : Alex Receiver) → t + left * hi ≤ 32767 → Sums left t s
  unfolding add_readings
  add_readings-Sums zero t s fits = record {
    total = t;
    calls = s.calls;
    run = refl;
    least = omega arith;
    most = omega arith;
    unwritten = refl;
  }
  add_readings-Sums (suc left) t s fits =
      let n = w.pulse s sensor_out in
      let most_n : n ≤ hi = high s in
      let least_n : lo ≤ n = low s in
      let e_hi : suc left * hi ≡ left * hi + hi = suc-mul left hi in
      let e_lo : suc left * lo ≡ left * lo + lo = suc-mul left lo in
      let s1 = emit (delay 20) (emit (pulse_in sensor_out) s) in
      let rest = add_readings-Sums left (t + n) s1 (omega arith) in
      let sum : pos t +ℤ to_int n ≡ pos (t + n) =
        ap (λ z. pos t +ℤ z) (int_of_reading n most_n) ∙ sum_of_readings t n in
      record {
        total = rest.total;
        calls = rest.calls;
        run = rw (sum, in_int (t + n) (omega arith)) rest.run;
        least = let k = rest.least in omega arith;
        most = let k = rest.most in omega arith;
        unwritten = rest.unwritten;
      }

  -- The average of five readings is between the least and the greatest of them.
  pub record Averages (s : Alex Receiver) : Type 0 where
    pub average : ℕ
    pub calls : List Event
    pub run : average_freq w s ≡ some (pos average, record s { calls = calls })
    pub least : lo ≤ average
    pub most : average ≤ hi
    pub unwritten : wires calls ≡ wires s.calls

  pub average_freq-Averages : (s : Alex Receiver) → Averages s
  unfolding average_freq
  average_freq-Averages s =
      let sums = add_readings-Sums 5 0 s (omega arith) in
      let k = sums.least in
      let m = sums.most in
      record {
        average = sums.total / 5;
        calls = sums.calls;
        run = rw sums.run refl;
        least = omega arith;
        most = omega arith;
        unwritten = sums.unwritten;
      }

  -- `findColor` stores three such averages, and writes nothing.
  pub record Found (s : Alex Receiver) : Type 0 where
    pub red : ℕ
    pub green : ℕ
    pub blue : ℕ
    pub calls : List Event
    pub run :
        find_color w s
        ≡ some (record s { red_freq = red; green_freq = green; blue_freq = blue; calls = calls })
    pub red_between : IsBetween lo hi red
    pub green_between : IsBetween lo hi green
    pub blue_between : IsBetween lo hi blue
    pub unwritten : wires calls ≡ wires s.calls

  word_of_average : (n : ℕ) → n ≤ hi → to_word (pos n) ≡ n
  word_of_average n h = omega arith

  pub find_color-Found : (s : Alex Receiver) → Found s
  unfolding find_color
  find_color-Found s =
      let red = average_freq-Averages (filter false false s) in
      let s1 = settled (record s { red_freq = to_word (pos red.average); calls = red.calls }) in
      let green = average_freq-Averages (filter true true s1) in
      let s2 =
        settled (record s1 { green_freq = to_word (pos green.average); calls = green.calls }) in
      let blue = average_freq-Averages (filter false true s2) in
      record {
        red = to_word (pos red.average);
        green = to_word (pos green.average);
        blue = to_word (pos blue.average);
        calls = delay color_sensor_delay ∷ blue.calls;
        run = rw (red.run, green.run, blue.run) refl;
        red_between = rw (word_of_average red.average red.most) (red.least, red.most);
        green_between = rw (word_of_average green.average green.most) (green.least, green.most);
        blue_between = rw (word_of_average blue.average blue.most) (blue.least, blue.most);
        unwritten = blue.unwritten ∙ green.unwritten ∙ red.unwritten;
      }
