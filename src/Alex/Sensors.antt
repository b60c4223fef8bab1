-- ===== src/Alex/Sensors.antt =====
-- The colour sensor, the distance sensor and the servo: alex/colour_sensor.ino,
-- alex/ultrasonic.ino and alex/servo.ino. A sum that leaves the range of `int` is undefined
-- behaviour, `none`.
use cg2111a_b.Base.{
  ℕ, zero, suc, ◌*◌, ◌/◌, ◌-◌, ◌%◌, ◌^◌, Bool, ◌&&◌, Option, none, some, ◌>>=◌, if◌then◌else◌, ltb,
  true, false,
}
use cg2111a_b.Base.Int.{ℤ, pos, negsuc, ◌+ℤ◌, ◌-ℤ◌, leb_ℤ, to_word}
use cg2111a_b.Packet.{Packet, set_param}
use cg2111a_b.Pi.{packet_type_response, resp_color, resp_dist}
use cg2111a_b.Alex.{
  Alex, World, emit, output_pin, input_pin, high, low, pulse_in, delay, delay_microseconds,
  servo_attach, servo_write, servo_detach,
}
use cg2111a_b.Alex.Replies.{typed, send_response, send_ok}

abbrev s0 : ℕ
s0 = 48

abbrev s1 : ℕ
s1 = 44

abbrev s2 : ℕ
s2 = 52

abbrev s3 : ℕ
s3 = 46

abbrev pub sensor_out : ℕ
sensor_out = 50

abbrev pub color_sensor_delay : ℕ
color_sensor_delay = 50

abbrev pub shroud_mouth_to_ultrasonic : ℕ
shroud_mouth_to_ultrasonic = 7

abbrev pub distance_to_stop : ℕ
distance_to_stop = 2

abbrev trig_pin : ℕ
trig_pin = 41

abbrev pub echo_pin : ℕ
echo_pin = 39

abbrev sim_ground : ℕ
sim_ground = 37

abbrev sim_vcc : ℕ
sim_vcc = 43

-- The conversion of an `unsigned long` to `int`, and whether a sum is an `int`.
abbrev pub to_int : ℕ → ℤ
to_int n = if ltb (n % 2 ^ 16) (2 ^ 15) then pos (n % 2 ^ 16) else negsuc (2 ^ 16 - 1 - n % 2 ^ 16)

abbrev pub is_int : ℤ → Bool
is_int z = leb_ℤ (negsuc 32767) z && leb_ℤ z (pos 32767)

-- `/` of an `int` by 5.
abbrev pub fifth : ℤ → ℤ
fifth (pos n) = pos (n / 5)
fifth (negsuc n) = pos 0 -ℤ pos (suc n / 5)

-- `currentdist` of `sendColor`, and `linearactuatordist` under its first test.
abbrev pub current_dist : ℤ → ℕ
current_dist d = to_word (d -ℤ pos shroud_mouth_to_ultrasonic)

abbrev pub extension : ℕ → ℕ
extension currentdist =
    if ltb 7 (currentdist - distance_to_stop) then 7 else currentdist - distance_to_stop

module _ {R : Type 0} where
  unfoldable pub setup_colour_sensor : Alex R → Alex R
  setup_colour_sensor s =
      let outputs =
        emit (output_pin s3)
          (emit (output_pin s2) (emit (output_pin s1) (emit (output_pin s0) s))) in
      emit (low s1) (emit (high s0) (emit (input_pin sensor_out) outputs))

  unfoldable pub setup_ultrasonic : Alex R → Alex R
  setup_ultrasonic s =
      let echo = emit (input_pin echo_pin) (emit (output_pin trig_pin) s) in
      let ground = emit (low sim_ground) (emit (input_pin sim_ground) echo) in
      emit (high sim_vcc) (emit (output_pin sim_vcc) ground)

  -- The filter of the photodiodes that `level2` and `level3` choose.
  abbrev pub filter : Bool → Bool → Alex R → Alex R
  filter level2 level3 s =
      let second = emit (if level2 then high s2 else low s2) s in
      emit (delay color_sensor_delay) (emit (if level3 then high s3 else low s3) second)

  abbrev pub settled : Alex R → Alex R
  settled s = emit (delay color_sensor_delay) s

module _ (w : World) where
  open w use {Float}
  open w use {Receiver}

  abbrev run_servo : ℕ → Float → Alex Receiver → Alex Receiver
  run_servo angle dist s =
      let time = w.word_of (w.times (w.divide dist (w.of_int (pos 6))) (w.of_int (pos 1000))) in
      let running =
        emit (delay time)
          (emit (servo_write angle) (emit (servo_attach 24) (emit (servo_write 90) s))) in
      emit servo_detach (emit (servo_write 90) running)

  unfoldable pub distance_forward : Float → Alex Receiver → Alex Receiver
  distance_forward dist s = run_servo 135 dist s

  unfoldable pub distance_reverse : Float → Alex Receiver → Alex Receiver
  distance_reverse dist s = run_servo 45 dist s

  -- The distance that a pulse stands for.
  abbrev pub distance_of : ℕ → ℤ
  distance_of duration =
      let scaled = w.divide (w.of_word (duration * 340 % 2 ^ 32)) (w.literal "20000.0") in
      w.int_of (w.minus scaled (w.of_int (pos 0)))

  unfoldable pub get_ultrasonic_distance : Alex Receiver → ℤ × Alex Receiver
  get_ultrasonic_distance s =
      let cleared = emit (delay_microseconds 2) (emit (low trig_pin) s) in
      let raised = emit (delay_microseconds 10) (emit (high trig_pin) cleared) in
      let ready = emit (low trig_pin) raised in
      (distance_of (w.pulse ready echo_pin), emit (pulse_in echo_pin) ready)

  abbrev pub distance_packet : ℤ → Alex Receiver → Packet
  distance_packet d s = set_param 0 (to_word d) (typed w packet_type_response resp_dist s)

  unfoldable pub send_distance : Alex Receiver → Alex Receiver
  send_distance s =
      let measured = get_ultrasonic_distance s in
      send_ok w (send_response w (distance_packet measured.0 measured.1) measured.1)

  -- The loop of `average_freq`, with the number of readings left.
  unfoldable pub add_readings : ℕ → ℤ → Alex Receiver → Option (ℤ × Alex Receiver)
  add_readings zero total s = some (total, s)
  add_readings (suc left) total s =
      let sum = total +ℤ to_int (w.pulse s sensor_out) in
      let rest = add_readings left sum (emit (delay 20) (emit (pulse_in sensor_out) s)) in
      if is_int sum then rest else none

  unfoldable pub average_freq : Alex Receiver → Option (ℤ × Alex Receiver)
  average_freq s = do (total, s') ← add_readings 5 (pos 0) s; some (fifth total, s')

  unfoldable pub find_color : Alex Receiver → Option (Alex Receiver)
  find_color s = do
    (red, s1) ← average_freq (filter false false s)
    (green, s2) ← average_freq (filter true true (settled (record s1 { red_freq = to_word red })))
    (blue, s3) ←
        average_freq (filter false true (settled (record s2 { green_freq = to_word green })))
    some (settled (record s3 { blue_freq = to_word blue }))

  abbrev pub extended : ℕ → Alex Receiver → Alex Receiver
  extended dist s = distance_forward (w.of_word dist) (record s { linearactuatordist = dist })

  unfoldable pub extend : ℕ → Alex Receiver → Alex Receiver
  extend currentdist s =
      if ltb distance_to_stop currentdist then extended (extension currentdist) s else s

  abbrev pub color_packet : Alex Receiver → Packet
  color_packet s = set_param 2 s.blue_freq (
      set_param 1 s.green_freq (set_param 0 s.red_freq (typed w packet_type_response resp_color s)))

  unfoldable pub retract : Alex Receiver → Alex Receiver
  retract s =
      let dist = w.plus (w.of_word s.linearactuatordist) (w.literal "0.25") in
      record (distance_reverse dist s) { linearactuatordist = 0 }

  unfoldable pub send_color : Alex Receiver → Option (Alex Receiver)
  send_color s = do
    let measured = get_ultrasonic_distance s
    s' ← find_color (extend (current_dist measured.0) measured.1)
    some (retract (send_response w (color_packet s') s'))
