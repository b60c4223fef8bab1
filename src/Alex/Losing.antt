-- ===== src/Alex/Losing.antt =====
-- Clearing the counters in the middle of a movement (alex/alex.ino, alex/usart.ino).
use cg2111a_b.Base.{
  ℕ, ◌≡◌, ◌≤◌, refl, ap, sym, Option, ◌∙◌, false, List, [], ◌∷◌, some, ◌>>=◌, if◌then◌else◌,
  if-skips,
}
use cg2111a_b.Base.Int.{ℤ}
use cg2111a_b.Packet.{Packet}
use cg2111a_b.Alex.{Alex, World, Motor, emit, read, forwards, backwards, leftwards, rightwards}
use cg2111a_b.Alex.Encoders.{left_isr, right_isr, clear_counters}
use cg2111a_b.Alex.Motion.{stop}
use cg2111a_b.Alex.Replies.{send_message, send_ok, send_response}
use cg2111a_b.Alex.Sensors.{get_ultrasonic_distance}
use cg2111a_b.Alex.Commands.{case_of, run_common, handle_packet, clear_stats}
use cg2111a_b.Alex.Dispatch.{dispatched}
use cg2111a_b.Alex.Main.{
  is_near, auto_stopped, avoid_collision, check_distance, check_turn, end_distance, end_turn,
}
use cg2111a_b.Alex.Happenings.{
  Happening, left_tick, right_tick, idle, happen, run_all, last_speed, distance_done, turn_done,
  check_distance_lem, check_turn_lem, loop_idle,
}
use cg2111a_b.Alex.Going.{
  Way, going_forward, going_backward, going_left, going_right, isr_forwards, isr_backwards,
  isr_leftwards, isr_rightwards,
}
use cg2111a_b.Alex.Halting.{turned, zero-and}

abbrev pub dir_of : Way → ℕ
dir_of going_forward = forwards
dir_of going_backward = backwards
dir_of going_left = leftwards
dir_of going_right = rightwards

module _ (w : World) where
  open w use {Receiver}

  -- It drives with nothing to stop it, its motors at the speeds that they were given.
  abbrev pub IsEndless : Way → (Motor → Option ℤ) → Alex Receiver → Type 0
  IsEndless way speeds s =
      (s.dir ≡ dir_of way)
      × (s.delta_dist ≡ 0)
      × (s.delta_ticks ≡ 0)
      × (s.prevent_collision ≡ false)
      × ((m : Motor) → last_speed m s.calls ≡ speeds m)

  ticked :
      (way : Way) (speeds : Motor → Option ℤ) (s : Alex Receiver)
      → IsEndless way speeds s
      → IsEndless way speeds (left_isr w s) × IsEndless way speeds (right_isr s)
  ticked going_forward speeds s h =
      let (left, right) = isr_forwards w s h.0 in (rw left h, rw right h)
  ticked going_backward speeds s h =
      let (left, right) = isr_backwards w s h.0 in (rw left h, rw right h)
  ticked going_left speeds s h =
      let (left, right) = isr_leftwards w s h.0 in (rw left h, rw right h)
  ticked going_right speeds s h =
      let (left, right) = isr_rightwards w s h.0 in (rw left h, rw right h)

  pub avoids_nothing : (s : Alex Receiver) → s.prevent_collision ≡ false → avoid_collision w s ≡ s
  unfolding avoid_collision
  avoids_nothing s e =
      let (d, s') = get_ultrasonic_distance w s in
      if-skips (λ t. t ≡ s) s.prevent_collision
        (if is_near d then send_message w auto_stopped (stop w s') else s') s e refl

  checks_nothing :
      (s : Alex Receiver)
      → s.delta_dist ≡ 0
      → s.delta_ticks ≡ 0
      → check_turn w (check_distance w s) ≡ s
  checks_nothing s no_dist no_ticks =
      let far = zero-and s.delta_dist _ no_dist in
      let turned = zero-and s.delta_ticks _ no_ticks in
      let e =
        check_distance_lem w s
        ∙ if-skips (λ t. t ≡ s) (distance_done s) (end_distance w s) s far refl in
      ap (λ t. check_turn w t) e
      ∙ check_turn_lem w s
      ∙ if-skips (λ t. t ≡ s) (turn_done s) (end_turn w s) s turned refl

  turned_on :
      (way : Way) (speeds : Motor → Option ℤ) (s : Alex Receiver)
      → IsEndless way speeds s
      → turned w s ≡ emit (read []) s
  turned_on way speeds s (dir, no_dist, no_ticks, no_prevention, speeds_ok) =
      ap (λ t. emit (read []) (check_turn w (check_distance w t))) (avoids_nothing s no_prevention)
      ∙ ap (λ t. emit (read []) t) (checks_nothing s no_dist no_ticks)

  happen-IsEndless :
      (way : Way) (speeds : Motor → Option ℤ) (h : Happening) (s : Alex Receiver)
      → IsEndless way speeds s
      → (s' : Alex Receiver) × (happen w h s ≡ some s') × IsEndless way speeds s'
  happen-IsEndless way speeds left_tick s k = (left_isr w s, refl, (ticked way speeds s k).0)
  happen-IsEndless way speeds right_tick s k = (right_isr s, refl, (ticked way speeds s k).1)
  happen-IsEndless way speeds idle s k =
      (emit (read []) s, loop_idle w s ∙ ap some (turned_on way speeds s k), k)

  run_all-IsEndless :
      (way : Way) (speeds : Motor → Option ℤ) (hs : List Happening) (s : Alex Receiver)
      → IsEndless way speeds s
      → (s' : Alex Receiver) × (run_all w hs s ≡ some s') × IsEndless way speeds s'
  unfolding run_all
  run_all-IsEndless way speeds [] s k = (s, refl, k)
  run_all-IsEndless way speeds (h ∷ hs) s k =
      let (s1, step, k1) = happen-IsEndless way speeds h s k in
      let (s2, rest, k2) = run_all-IsEndless way speeds hs s1 k1 in (s2, rw step rest, k2)

  -- Any packet that asks to clear the counters is handled by clearing them.
  cleared :
      (p : Packet) (s : Alex Receiver)
      → p.packet_type ≤ 2
      → p.command ≡ 6
      → handle_packet w p s ≡ some (clear_counters (send_ok w s))
  unfolding run_common
  cleared p s kind command =
      let e : case_of p.command ≡ clear_stats = ap case_of command ∙ (unfold case_of in refl) in
      dispatched w clear_stats p s tt e kind

  -- A rover that moves in one of the four ways, not watching for obstacles, and is told to clear
  -- the counters, moves on over any interrupts of the wheels and idle turns of `loop`: neither its
  -- direction nor the speed of a motor changes.
  pub clear_stats-endless :
      (way : Way) (p : Packet) (s : Alex Receiver) (hs : List Happening)
      → p.packet_type ≤ 2
      → p.command ≡ 6
      → s.dir ≡ dir_of way
      → s.prevent_collision ≡ false
      → (s' : Alex Receiver) × ((handle_packet w p s >>= λ s1. run_all w hs s1) ≡ some s')
        × (s'.dir ≡ s.dir)
        × ((m : Motor) → last_speed m s'.calls ≡ last_speed m s.calls)
  clear_stats-endless way p s hs kind command dir no_prevention =
      let s1 = clear_counters (send_ok w s) in
      let (s', run, (dir', no_dist, no_ticks, prevention, speeds)) =
        run_all-IsEndless way (λ m. last_speed m s.calls) hs s1
          (unfold clear_counters send_ok send_response in
            (dir, refl, refl, no_prevention, λ m. refl)) in
      (s', rw (cleared p s kind command) run, dir' ∙ sym dir, speeds)
