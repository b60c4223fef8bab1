-- ===== src/Pi/Params.antt =====
-- What `getParams` (RPi/usart.cpp) and the changes of the screen leave alone.
use cg2111a_b.Base.{
  ℕ, ◌||◌, Bool-cases, inl, inr, ◌<◌, ◌^◌, ◌≡◌, refl, arith, List, [], ◌∷◌, ◌==◌, length,
}
use cg2111a_b.Base.Int.{ℤ, pos, negsuc, to_word}
use cg2111a_b.Packet.{Packet, set_param}
use cg2111a_b.Packet.Layout.{IsPacket}
use cg2111a_b.Serialize.{packet_size}
use cg2111a_b.Serialize.Frame.{IsComms}
use cg2111a_b.Pi.{Pi, Event, World, Stack, Scan, neither, first, both, write}
use cg2111a_b.Pi.Send.{get_params, scanned, asked, leave_curses, enter_curses}
use cg2111a_b.Packet.Stores.{set_param-IsPacket}

-- The uninitialised locals have the sizes that their types give them.
pub record IsStack (k : Stack) : Type 0 where
  pub slot : IsComms k.slot
  pub buffer : length k.buffer ≡ packet_size
  pub packet : IsPacket k.packet

-- The bytes given to the serial port, the last ones first.
abbrev pub written : {Float : Type 0} → List (Event Float) → List (List ℕ)
written [] = []
written (write bytes ∷ calls) = bytes ∷ written calls
written (_ ∷ calls) = written calls

pub to_word-lt : (z : ℤ) → to_word z < 2 ^ 32
to_word-lt (pos n) = omega arith
to_word-lt (negsuc n) = omega arith

pub written-leave_curses :
    {Float : Type 0} (s : Pi Float) → written (leave_curses s).calls ≡ written s.calls
unfolding leave_curses
written-leave_curses s = elim (Bool-cases (s.keyboard_mode == 3 || s.keyboard_mode == 4)) [
  | inl e ↦ rw e refl
  | inr e ↦ rw e refl
]

pub leave_curses_port : {Float : Type 0} (s : Pi Float) → (leave_curses s).fd ≡ s.fd
unfolding leave_curses
leave_curses_port s = elim (Bool-cases (s.keyboard_mode == 3 || s.keyboard_mode == 4)) [
  | inl e ↦ rw e refl
  | inr e ↦ rw e refl
]

pub enter_curses_port : {Float : Type 0} (s : Pi Float) → (enter_curses s).fd ≡ s.fd
unfolding enter_curses
enter_curses_port s = elim (Bool-cases (s.keyboard_mode == 1 || s.keyboard_mode == 2)) [
  | inl e ↦ rw e refl
  | inr e ↦ rw e refl
]

pub written-enter_curses :
    {Float : Type 0} (s : Pi Float) → written (enter_curses s).calls ≡ written s.calls
unfolding enter_curses
written-enter_curses s = elim (Bool-cases (s.keyboard_mode == 1 || s.keyboard_mode == 2)) [
  | inl e ↦ rw e refl
  | inr e ↦ rw e refl
]

pub record GotParams {Float : Type 0} (p : Packet) (s : Pi Float) (g : Packet × Pi Float)
    : Type 0 where
  pub shape : IsPacket g.0
  pub kind : g.0.packet_type ≡ p.packet_type
  pub port : g.1.fd ≡ s.fd
  pub quiet : written g.1.calls ≡ written s.calls

module _ (w : World) where
  open w use {Float, stack}

  scanned-IsPacket : (k : Scan) (p : Packet) → IsPacket p → IsPacket (scanned w k p)
  scanned-IsPacket neither p h = h
  scanned-IsPacket (first a) p h = set_param-IsPacket 0 (to_word a) p h (to_word-lt a)
  scanned-IsPacket (both a b) p h =
      set_param-IsPacket 1 (to_word b) (set_param 0 (to_word a) p)
        (set_param-IsPacket 0 (to_word a) p h (to_word-lt a)) (to_word-lt b)

  scanned-kind : (k : Scan) (p : Packet) → (scanned w k p).packet_type ≡ p.packet_type
  scanned-kind neither p = refl
  scanned-kind (first a) p = refl
  scanned-kind (both a b) p = refl

  pub get_params-GotParams :
      (p : Packet) (s : Pi Float) → IsPacket p → GotParams p s (get_params w p s)
  unfolding get_params
  get_params-GotParams p s h = elim (Bool-cases (s.keyboard_mode == 1)) [
    | inl e ↦ rw e (record {
      shape = scanned-IsPacket (w.scan (asked w s)) p h;
      kind = scanned-kind (w.scan (asked w s)) p;
      port = refl;
      quiet = refl;
    })
    | inr e ↦ rw e (elim (Bool-cases (s.keyboard_mode == 2 || s.keyboard_mode == 3)) [
      | inl f ↦ rw f (with_word s.speed)
      | inr f ↦ rw f (elim (Bool-cases (s.keyboard_mode == 4)) [
        | inl g ↦ rw g (with_word s.delay_time)
        | inr g ↦ rw g (record { shape = h; kind = refl; port = refl; quiet = refl })
      ])
    ])
  ]
    where
      with_word : (z : ℤ) → GotParams p s (set_param 0 (to_word z) p, s)
      with_word z = record {
        shape = set_param-IsPacket 0 (to_word z) p h (to_word-lt z);
        kind = refl;
        port = refl;
        quiet = refl;
      }
