-- ===== src/Pi/Boot.antt =====
-- `main` (RPi/alex-pi.cpp) up to its loop.
use cg2111a_b.Base.{ℕ, zero, suc, ◌≡◌, refl, sym, arith, some, Bool-cases, inl, inr, [], List}
use cg2111a_b.Base.Int.{pos, negsuc, ltb_ℤ, leb_ℤ}
use cg2111a_b.Packet.{packet_bytes}
use cg2111a_b.Packet.Layout.{length-packet_bytes}
use cg2111a_b.Serialize.Roundtrip.{frame, serialize_lem}
use cg2111a_b.Pi.{Pi, World, emit, printf, sleep, packet_type_hello}
use cg2111a_b.Pi.Send.{send_packet}
use cg2111a_b.Packet.Stores.{coded-IsPacket}
use cg2111a_b.Pi.Params.{IsStack}
use cg2111a_b.Pi.Opening.{Outcome, start_serial-Outcome}
use cg2111a_b.Pi.Serial.{Ports, connect, start_serial, serial_write}
use cg2111a_b.Pi.Main.{globals, send_hello, boot}
use cg2111a_b.Pi.Sound.{IsSound, kept-IsSound, drawn-IsSound}
use cg2111a_b.Pi.Sound.Commands.{send_packet-IsSound}

pub globals-IsSound : {Float : Type 0} → IsSound (globals {Float = Float})
globals-IsSound = record {
  speed_ok = ground arith;
  delay_ok = refl;
  mode_low = omega arith;
  mode_high = omega arith;
  screen = inr refl;
}

serial_write_port :
    {Float : Type 0} (bytes : List ℕ) (s : Pi Float) → (serial_write bytes s).fd ≡ s.fd
unfolding serial_write
serial_write_port bytes s = elim (Bool-cases (leb_ℤ (pos 0) s.fd)) [
  | inl e ↦ rw e refl
  | inr e ↦ rw e refl
]

module _ (d : Ports) {Float : Type 0} where
  connect-IsSound :
      (max left made : ℕ) (s : Pi Float) → IsSound s → IsSound (connect d max left made s)
  unfolding connect
  connect-IsSound max zero made s h = h
  connect-IsSound max (suc left) made s h = elim (Bool-cases (ltb_ℤ s.fd (pos 0))) [
    | inl e ↦ rw e (elim (Bool-cases (ltb_ℤ (d.open_port (suc made)) (pos 0))) [
      | inl bad ↦
          rw bad
            (connect-IsSound max left (suc made) _ (kept-IsSound s _ refl refl refl refl refl h))
      | inr ok ↦
          rw ok
            (connect-IsSound max left (suc made) _ (kept-IsSound s _ refl refl refl refl refl h))
    ])
    | inr e ↦ rw e h
  ]

  start_serial-IsSound :
      (baud byte_size parity stop_bits max : ℕ) (s : Pi Float)
      → IsSound s
      → IsSound (start_serial d baud byte_size parity stop_bits max s)
  unfolding start_serial
  start_serial-IsSound baud byte_size parity stop_bits max s h =
      let tried : IsSound (connect d max max 0 (record s { fd = negsuc 0 })) =
        connect-IsSound max max 0 _ (kept-IsSound s _ refl refl refl refl refl h) in
      elim (Bool-cases (ltb_ℤ (connect d max max 0 (record s { fd = negsuc 0 })).fd (pos 0))) [
        | inl e ↦ rw e (drawn-IsSound _ _ tried refl)
        | inr e ↦ rw e (drawn-IsSound _ _ tried refl)
      ]

module _ (w : World) where
  open w use {Float}

  pub boot-IsSound : (d : Ports) (s : Pi Float) → boot w d globals ≡ some s → IsSound s
  unfolding boot send_hello
  boot-IsSound d s run =
      send_packet-IsSound w _ _ s run
        (drawn-IsSound _ _ (start_serial-IsSound d 9600 8 b'N' 1 5 globals globals-IsSound) refl)

module _ (w : World) (stacks : (s : Pi w.Float) → IsStack (w.stack s)) where
  open w use {Float, stack}

  -- `main` reaches its loop without a fault, whatever the operating system answers, after at most
  -- 5 attempts to open the port: the port is the one that the first attempt that did not fail
  -- opened, or it is not open when all of them failed.
  pub boot_defined :
      (d : Ports) → (s : Pi Float) × (boot w d globals ≡ some s) × Outcome d.open_port 0 5 s.fd
  unfolding boot send_hello send_packet
  boot_defined d =
      let s1 = start_serial d 9600 8 b'N' 1 5 globals in
      let s2 = emit (printf "WAITING TWO SECONDS FOR ARDUINO TO REBOOT\n" []) s1 in
      let s3 = emit (printf "DONE\n" []) (emit (sleep 2) s2) in
      let p = record ((stack s3).packet) { packet_type = packet_type_hello } in
      let h =
        coded-IsPacket (stack s3).packet packet_type_hello (stack s3).packet.command
          (stacks s3).packet in
      (
        serial_write (frame (stack s3).slot (packet_bytes p)) s3,
        rw
            (
              sym (length-packet_bytes p h),
              serialize_lem (stack s3).slot (stack s3).buffer (packet_bytes p) (stacks s3).slot
                  (stacks s3).buffer (omega (arith, length-packet_bytes p h)),
            )
            refl,
        rw serial_write_port (start_serial-Outcome d 9600 8 b'N' 1 5 globals),
      )
