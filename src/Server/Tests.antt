-- ===== src/Server/Tests.antt =====
-- Runs of the server, and its theorems at concrete inputs.
pub mod Listening
use cg2111a_b.Base.{
  ℕ, zero, suc, ◌≡◌, refl, [], ◌∷◌, some, none, Bool, true, false, replicate, arith, IsBytes,
}
use cg2111a_b.Base.Int.{pos}
use cg2111a_b.Packet.Tests.{forward, forward-IsPacket}
use cg2111a_b.Serialize.Tests.{blank, blank-IsComms}
use cg2111a_b.Pi.{Stack}
use cg2111a_b.Pi.Params.{IsStack}
use cg2111a_b.Server.{Server, Locals}
use cg2111a_b.Server.Uart.{handle_uart_packet}
use cg2111a_b.Server.Network.{handle_network_data}
use cg2111a_b.Server.Requests.{NetEffect, asked_for, handle_network_data-NetEffect}
use cg2111a_b.Server.Turns.{start, next, uart}
use cg2111a_b.Server.Closing.{IsClosed, Runs-IsClosed}

abbrev pub locals : Stack
locals = record { slot = blank; buffer = replicate 140 0; packet = forward }

pub locals-IsStack : IsStack locals
locals-IsStack = record { slot = blank-IsComms; buffer = refl; packet = forward-IsPacket }

abbrev pub leftover : Locals
leftover = record { stack = λ s. locals; count = λ s. pos 0 }

abbrev pub serving : Bool → Server
serving active = record { fd = pos 3; network_active = active; tls_conn = none; calls = [] }

pub zeros-IsBytes : (n : ℕ) → IsBytes (replicate n 0)
zeros-IsBytes zero = tt
zeros-IsBytes (suc n) = (omega arith, zeros-IsBytes n)

handle_network_data-NetEffect_example :
    (s' : Server) × (handle_network_data leftover 7 (3 ∷ b'F' ∷ replicate 127 0) (serving true)
      ≡ some s')
    × NetEffect (asked_for 3 b'F') (serving true) s'
    × (s'.tls_conn ≡ some 7)
handle_network_data-NetEffect_example =
    handle_network_data-NetEffect leftover (λ s. locals-IsStack) 7 3 b'F' (replicate 127 0)
      (serving true) (omega arith) (omega arith, (omega arith, zeros-IsBytes 127)) (omega arith)

-- A response of the server's own numbering.
answered : (s : Server) × (handle_uart_packet leftover forward (serving false) ≡ some s)
unfolding handle_uart_packet
answered = (_, refl)

Runs-IsClosed_example : IsClosed (serving false) answered.0
Runs-IsClosed_example =
    Runs-IsClosed leftover 0 (serving false) answered.0
      (next 0 0 (serving false) answered.0 start
        (uart 0 forward (serving false) answered.0 answered.1))
      refl
