-- ===== src/Server/Table.antt =====
-- What the characters of `handleCommand` (server/tls-alex-server.cpp) mean, as a table.
use cg2111a_b.Base.{ℕ, ◌≡◌, arith, List, [], ◌∷◌, Option, some, none}
use cg2111a_b.Pi.{
  CommandType, command_forward, command_reverse, command_turn_left, command_turn_right,
  command_stop, command_get_stats, command_clear_stats,
}
use cg2111a_b.Pi.Table.{look_up}
use cg2111a_b.Server.Network.{NetCase, drive, reset, refuse, net_case_of}

abbrev net_keys : List (ℕ × CommandType)
net_keys =
    (b'f', command_forward)
    ∷ (b'b', command_reverse)
    ∷ (b'l', command_turn_left)
    ∷ (b'r', command_turn_right)
    ∷ (b's', command_stop)
    ∷ (b'c', command_clear_stats)
    ∷ (b'g', command_get_stats)
    ∷ []

abbrev pub net_requested : ℕ → Option CommandType
net_requested c = look_up c net_keys

abbrev pub net_request : NetCase → Option CommandType
net_request (drive code) = some code
net_request reset = some command_clear_stats
net_request refuse = none

pub net_request-net_case_of : (c : ℕ) → net_request (net_case_of c) ≡ net_requested c
unfolding net_case_of
net_request-net_case_of c = ground arith
