-- ===== src/Pi/Table.antt =====
-- What the characters and the modes of `sendCommand` (RPi/usart.cpp) mean, as tables.
use cg2111a_b.Base.{
  ℕ, zero, suc, ◌+◌, ◌≡◌, refl, arith, List, [], ◌∷◌, Option, some, none, if◌then◌else◌, ◌==◌,
  get_or,
}
use cg2111a_b.Pi.{
  CommandType, command_forward, command_reverse, command_turn_left, command_turn_right,
  command_stop, command_get_stats, command_clear_stats, command_color, command_dist, command_lcd,
}
use cg2111a_b.Pi.Send.{
  Case, move, stop, clear_stats, get_stats, color, dist, lcd, case_of, packet_type_of,
}

abbrev command_keys : List (ℕ × CommandType)
command_keys =
    (b'w', command_forward)
    ∷ (b's', command_reverse)
    ∷ (b'a', command_turn_left)
    ∷ (b'd', command_turn_right)
    ∷ (b'o', command_stop)
    ∷ (b'k', command_clear_stats)
    ∷ (b'g', command_get_stats)
    ∷ (b'v', command_color)
    ∷ (b'u', command_dist)
    ∷ (b'l', command_lcd)
    ∷ []

-- A letter counts in both sizes; the large one is 32 below.
abbrev pub look_up : ℕ → List (ℕ × CommandType) → Option CommandType
look_up c [] = none
look_up c ((key, code) ∷ rest) =
    if c == key then some code else (if c + 32 == key then some code else look_up c rest)

abbrev pub requested : ℕ → Option CommandType
requested c = look_up c command_keys

abbrev pub kind_of_mode : ℕ → ℕ
kind_of_mode mode = get_or (2 ∷ 0 ∷ 1 ∷ 1 ∷ []) mode 2

-- The command that a case asks the Arduino for.
abbrev pub request : Case → Option CommandType
request (move c) = some c
request stop = some command_stop
request clear_stats = some command_clear_stats
request get_stats = some command_get_stats
request color = some command_color
request dist = some command_dist
request lcd = some command_lcd
request _ = none

pub request-case_of : (c : ℕ) → request (case_of c) ≡ requested c
unfolding case_of
request-case_of c = ground arith

pub packet_type_of_lem : (mode : ℕ) → packet_type_of mode ≡ kind_of_mode mode
packet_type_of_lem zero = refl
packet_type_of_lem (suc zero) = refl
packet_type_of_lem (suc (suc zero)) = refl
packet_type_of_lem (suc (suc (suc zero))) = refl
packet_type_of_lem (suc (suc (suc (suc n)))) = ground arith
