-- ===== src/Server/Turns.antt =====
-- The threads of the server (server/tls-alex-server.cpp): the serial listener and the worker of a connection, in any
-- order.
use cg2111a_b.Base.{suc, ℕ, ◌≡◌, List, some, true, false}
use cg2111a_b.Base.Int.{ℤ}
use cg2111a_b.Packet.{Packet}
use cg2111a_b.Serialize.{Result}
use cg2111a_b.Server.{Server, Locals}
use cg2111a_b.Server.Uart.{handle_uart_packet}
use cg2111a_b.Server.Listener.{uart_packet_error}
use cg2111a_b.Server.Network.{worker_turn, worker_done}

module _ (w : Locals) where
  -- The number is that of the workers that have found the network active and have yet to assign
  -- `networkActive` anew; other turns may come between. What the locals `len` and `buffer` of such
  -- a worker hold is in its turn.
  pub data Turn : ℕ → Server → ℕ → Server → Type 0 where
    uart : (n : ℕ) (p : Packet) (s s' : Server) → handle_uart_packet w p s ≡ some s' → Turn n s n s'
    uart_bad : (n : ℕ) (r : Result) (s : Server) → Turn n s n (uart_packet_error r s)
    check : (n : ℕ) (s : Server) → s.network_active ≡ true → Turn n s (suc n) s
    work :
        (n conn : ℕ) (len : ℤ) (buffer : List ℕ) (s s' : Server)
        → worker_turn w conn len buffer s ≡ some s'
        → Turn (suc n) s n s'
    done : (n : ℕ) (s : Server) → s.network_active ≡ false → Turn n s n (worker_done s)

  pub data Runs (n : ℕ) (s : Server) : ℕ → Server → Type 0 where
    start : Runs n s n s
    next : (m k : ℕ) (t u : Server) → Runs n s m t → Turn m t k u → Runs n s k u
