-- ===== src/Alex/Answering.antt =====
-- The replies of the commands that the three handlers of alex/usart.ino treat alike.
use cg2111a_b.Base.{ℕ, ◌≤◌, ◌≡◌, refl, ◌∙◌, arith, List, [], ◌∷◌, Option, some, ltb, if-holds}
use cg2111a_b.Base.Int.{to_word}
use cg2111a_b.Packet.Layout.{IsPacket}
use cg2111a_b.Packet.Stores.{set_param-IsPacket, coded-IsPacket}
use cg2111a_b.Pi.Params.{to_word-lt}
use cg2111a_b.Alex.Typed.{IsTyped}
use cg2111a_b.Alex.{Alex, World}
use cg2111a_b.Alex.Replies.{status_packet, send_response, send_ok, send_status, send_bad_command}
use cg2111a_b.Alex.Sensors.{
  distance_to_stop, extension, extended, sensor_out, send_color, extend, distance_forward, retract,
  get_ultrasonic_distance, current_dist, send_distance, color_packet, distance_packet,
}
use cg2111a_b.Alex.Motion.{stop}
use cg2111a_b.Alex.Encoders.{clear_counters}
use cg2111a_b.Alex.Commands.{
  Case, move_forward, move_reverse, turn_left, turn_right, halt, get_stats, clear_stats, color,
  dist, unknown, run_common,
}
use cg2111a_b.Alex.Wires.{
  wires, Answered, quiet-Answered, send_response-Answered, trans-Answered, stop-wires,
  clear_counters-wires, measured-wires, retract-wires,
}
use cg2111a_b.Alex.Readings.{find_color-Found}

-- And of `run_common` alone.
abbrev pub by_common : Case → List (ℕ × ℕ)
by_common get_stats = (3, 1) ∷ (3, 0) ∷ []
by_common color = (3, 0) ∷ (3, 6) ∷ []
by_common dist = (3, 0) ∷ (3, 7) ∷ []
by_common halt = (3, 0) ∷ []
by_common clear_stats = (3, 0) ∷ []
by_common _ = (4, 4) ∷ []

module _ (w : World) (hi : ℕ) (high : (s : Alex w.Receiver) → w.pulse s sensor_out ≤ hi)
    (short : hi ≤ 6553) (packets : (s : Alex w.Receiver) → IsPacket (w.packet s)) where
  open w use {Receiver}

  -- A handler's result, with the replies that it made.
  abbrev pub Answers : List (ℕ × ℕ) → Alex Receiver → Option (Alex Receiver) → Type 0
  Answers codes s m = (s' : Alex Receiver) × (m ≡ some s') × Answered w codes s s'

  send_ok-Answered : (s : Alex Receiver) → Answered w ((3, 0) ∷ []) s (send_ok w s)
  unfolding send_ok
  send_ok-Answered s = send_response-Answered w _ s (coded-IsPacket (w.packet s) _ _ (packets s))

  -- What is done after the OK writes nothing.
  pub ok_then :
      (s s' : Alex Receiver)
      → wires s'.calls ≡ wires (send_ok w s).calls
      → Answered w ((3, 0) ∷ []) s s'
  ok_then s s' e =
      trans-Answered w ((3, 0) ∷ []) [] s (send_ok w s) s' (send_ok-Answered s)
        (quiet-Answered w (send_ok w s) s' e)

  extend-wires : (n : ℕ) (s : Alex Receiver) → wires (extend w n s).calls ≡ wires s.calls
  unfolding extend distance_forward
  extend-wires n s =
      if-holds (λ t. wires t.calls ≡ wires s.calls) (ltb distance_to_stop n)
        (extended w (extension n) s) s (λ e. refl) (λ e. refl)

  send_color-Answers : (s : Alex Receiver) → Answers ((3, 6) ∷ []) s (send_color w s)
  unfolding send_color
  send_color-Answers s =
      let (d, s1) = get_ultrasonic_distance w s in
      let s2 = extend w (current_dist d) s1 in
      let found = find_color-Found w 0 hi (λ t. omega arith) high short s2 in
      let s3 = record s2 {
        red_freq = found.red;
        green_freq = found.green;
        blue_freq = found.blue;
        calls = found.calls;
      } in
      let sent = send_response w (color_packet w s3) s3 in
      let shape =
        set_param-IsPacket 2 found.blue _
          (set_param-IsPacket 1 found.green _
            (set_param-IsPacket 0 found.red _ (coded-IsPacket (w.packet s3) 3 6 (packets s3))
              (let k = found.red_between.1 in omega arith))
            (let k = found.green_between.1 in omega arith))
          (let k = found.blue_between.1 in omega arith) in
      let before : wires s3.calls ≡ wires s.calls =
        found.unwritten ∙ extend-wires (current_dist d) s1 ∙ measured-wires w s in
      (
        retract w sent,
        rw found.run refl,
        trans-Answered w ((3, 6) ∷ []) [] s sent (retract w sent)
            (trans-Answered w [] ((3, 6) ∷ []) s s3 sent (quiet-Answered w s s3 before)
              (send_response-Answered w (color_packet w s3) s3 shape))
            (quiet-Answered w sent (retract w sent) (retract-wires w sent)),
      )

  send_distance-Answered :
      (s : Alex Receiver) → Answered w ((3, 0) ∷ (3, 7) ∷ []) s (send_distance w s)
  unfolding send_distance
  send_distance-Answered s =
      let (d, s1) = get_ultrasonic_distance w s in
      let s2 = send_response w (distance_packet w d s1) s1 in
      trans-Answered w ((3, 7) ∷ []) ((3, 0) ∷ []) s s2 (send_ok w s2)
        (trans-Answered w [] ((3, 7) ∷ []) s s1 s2 (quiet-Answered w s s1 (measured-wires w s)) (
          send_response-Answered w (distance_packet w d s1) s1 (
            set_param-IsPacket 0 (to_word d) _ (coded-IsPacket (w.packet s1) 3 7 (packets s1))
              (to_word-lt d))))
        (send_ok-Answered s2)

  status_packet-IsPacket : (s : Alex Receiver) → IsTyped s → IsPacket (status_packet w s)
  status_packet-IsPacket s (one_of, reach, freqs, ticks, turns, dists, deltas) =
      let p0 = coded-IsPacket (w.packet s) 3 1 (packets s) in
      let p1 = set_param-IsPacket 0 s.left_forward_ticks _ p0 ticks.0 in
      let p2 = set_param-IsPacket 1 s.right_forward_ticks _ p1 ticks.1 in
      let p3 = set_param-IsPacket 2 s.left_reverse_ticks _ p2 ticks.2 in
      let p4 = set_param-IsPacket 3 s.right_reverse_ticks _ p3 ticks.3 in
      let p5 = set_param-IsPacket 4 s.left_forward_turns _ p4 turns.0 in
      let p6 = set_param-IsPacket 5 s.right_forward_turns _ p5 turns.1 in
      let p7 = set_param-IsPacket 6 s.left_reverse_turns _ p6 turns.2 in
      let p8 = set_param-IsPacket 7 s.right_reverse_turns _ p7 turns.3 in
      let p9 = set_param-IsPacket 8 s.forward_dist _ p8 dists.0 in
      let p10 = set_param-IsPacket 9 s.reverse_dist _ p9 dists.1 in
      let p11 = set_param-IsPacket 10 s.delta_ticks _ p10 deltas.0 in
      set_param-IsPacket 11 s.target_ticks _ p11 deltas.1

  send_status-Answered :
      (s : Alex Receiver) → IsTyped s → Answered w ((3, 1) ∷ []) s (send_status w s)
  unfolding send_status
  send_status-Answered s h =
      send_response-Answered w (status_packet w s) s (status_packet-IsPacket s h)

  send_bad_command-Answered :
      (s : Alex Receiver) → Answered w ((4, 4) ∷ []) s (send_bad_command w s)
  unfolding send_bad_command
  send_bad_command-Answered s =
      send_response-Answered w _ s (coded-IsPacket (w.packet s) _ _ (packets s))

  pub run_common-Answers :
      (c : Case) (s : Alex Receiver) → IsTyped s → Answers (by_common c) s (run_common w c s)
  unfolding run_common send_ok send_response
  run_common-Answers halt s h =
      (stop w (send_ok w s), refl, ok_then s (stop w (send_ok w s)) (stop-wires w (send_ok w s)))
  run_common-Answers get_stats s h = (
    send_status w (send_ok w s),
    refl,
    trans-Answered w ((3, 0) ∷ []) ((3, 1) ∷ []) s (send_ok w s) (send_status w (send_ok w s))
        (send_ok-Answered s) (send_status-Answered (send_ok w s) h),
  )
  run_common-Answers clear_stats s h = (
    clear_counters (send_ok w s),
    refl,
    ok_then s (clear_counters (send_ok w s)) (clear_counters-wires w (send_ok w s)),
  )
  run_common-Answers color s h =
      let (s', run, answered) = send_color-Answers s in
      (
        send_ok w s',
        rw run refl,
        trans-Answered w ((3, 6) ∷ []) ((3, 0) ∷ []) s s' (send_ok w s') answered
            (send_ok-Answered s'),
      )
  run_common-Answers dist s h = (send_distance w s, refl, send_distance-Answered s)
  run_common-Answers move_forward s h = (send_bad_command w s, refl, send_bad_command-Answered s)
  run_common-Answers move_reverse s h = (send_bad_command w s, refl, send_bad_command-Answered s)
  run_common-Answers turn_left s h = (send_bad_command w s, refl, send_bad_command-Answered s)
  run_common-Answers turn_right s h = (send_bad_command w s, refl, send_bad_command-Answered s)
  run_common-Answers unknown s h = (send_bad_command w s, refl, send_bad_command-Answered s)
