-- ===== src/Server/Closing.antt =====
-- After the network has been found inactive (server/tls-alex-server.cpp).
use cg2111a_b.Base.{
  Ensures, Ensures-if, Ensures-at, Option-cases, inl, inr, arith, ℕ, ◌≡◌, refl, ◌∙◌, List, [], ◌∷◌,
  Bool, true, false, false≢true, if◌then◌else◌, ◌==◌, sym,
}
use cg2111a_b.Memory.{c_string}
use cg2111a_b.Packet.{Packet, words_bytes}
use cg2111a_b.Serialize.{Result, packet_bad, packet_checksum_bad}
use cg2111a_b.Pi.{resp_ok, resp_status}
use cg2111a_b.Server.{
  Server, Locals, uart_response, uart_error, uart_message, net_error_packet, net_status_packet,
  net_message_packet,
}
use cg2111a_b.Server.Uart.{
  send_network_data, report_error, forward_message, forward_status, forward_response,
  handle_uart_packet, uart_error_seen,
}
use cg2111a_b.Server.Listener.{uart_packet_error}
use cg2111a_b.Server.Turns.{Turn, uart, uart_bad, check, work, done, Runs, start, next}
use cg2111a_b.Server.Requests.{sent}

-- The network stays inactive, and the serial port has been given nothing more.
pub record IsClosed (s s' : Server) : Type 0 where
  pub inactive : s'.network_active ≡ false
  pub silent : sent s'.calls ≡ sent s.calls

IsClosed-if :
    (s : Server) (b : Bool) (x y : Server)
    → IsClosed s x
    → IsClosed s y
    → IsClosed s (if b then x else y)
IsClosed-if s true x y h k = h
IsClosed-if s false x y h k = k

uart_packet_error-IsClosed :
    (r : Result) (s : Server) → s.network_active ≡ false → IsClosed s (uart_packet_error r s)
unfolding uart_packet_error uart_error_seen
uart_packet_error-IsClosed packet_bad s e = record { inactive = e; silent = refl }
uart_packet_error-IsClosed packet_checksum_bad s e = record { inactive = e; silent = refl }
uart_packet_error-IsClosed _ s e = record { inactive = e; silent = refl }

module _ (w : Locals) where
  send_network_data-IsClosed :
      (bytes : List ℕ) (s : Server) → s.network_active ≡ false → send_network_data w bytes s ≡ s
  unfolding send_network_data
  send_network_data-IsClosed bytes s e = rw e refl

  told :
      (bytes : List ℕ) (s t : Server)
      → t.network_active ≡ false
      → sent t.calls ≡ sent s.calls
      → IsClosed s (send_network_data w bytes t)
  told bytes s t e silent =
      rw (send_network_data-IsClosed bytes t e) (record { inactive = e; silent = silent })

  forward_response-IsClosed :
      (p : Packet) (s : Server) → s.network_active ≡ false → IsClosed s (forward_response w p s)
  unfolding forward_response forward_status
  forward_response-IsClosed p s e =
      IsClosed-if s (p.command == resp_ok) _ _ (told (net_error_packet ∷ resp_ok ∷ []) s _ e refl) (
        IsClosed-if s (p.command == resp_status) _ _
          (told (net_status_packet ∷ words_bytes p.params) s _ e refl)
          (record { inactive = e; silent = refl }))

  forward_message-IsClosed :
      (p : Packet) (s : Server)
      → s.network_active ≡ false
      → Ensures (IsClosed s) (forward_message w p s)
  unfolding forward_message
  forward_message-IsClosed p s e = elim (Option-cases (c_string p.text)) [
    | inl unended ↦ rw unended tt
    | inr (message, ended) ↦ rw ended (told (net_message_packet ∷ p.text) s _ e refl)
  ]

  handle_uart_packet-IsClosed :
      (p : Packet) (s : Server)
      → s.network_active ≡ false
      → Ensures (IsClosed s) (handle_uart_packet w p s)
  unfolding handle_uart_packet report_error
  handle_uart_packet-IsClosed p s e =
      Ensures-if (IsClosed s) (p.packet_type == uart_response) _ _ (forward_response-IsClosed p s e)
        (Ensures-if (IsClosed s) (p.packet_type == uart_error) _ _
          (told (net_error_packet ∷ p.command ∷ []) s _ e refl)
          (Ensures-if (IsClosed s) (p.packet_type == uart_message) _ _
            (forward_message-IsClosed p s e) (record { inactive = e; silent = refl })))

  Turn-IsClosed :
      (n m : ℕ) (s s' : Server)
      → Turn w n s m s'
      → n ≡ 0
      → s.network_active ≡ false
      → (m ≡ 0) × IsClosed s s'
  Turn-IsClosed _ _ _ _ (uart n p s s' run) none_between e = (
    none_between,
    Ensures-at (IsClosed s) (handle_uart_packet w p s) s' run (handle_uart_packet-IsClosed p s e),
  )
  Turn-IsClosed _ _ _ _ (uart_bad n r s) none_between e =
      (none_between, uart_packet_error-IsClosed r s e)
  Turn-IsClosed _ _ _ _ (check n s active) none_between e = absurd (false≢true (sym e ∙ active))
  Turn-IsClosed _ _ _ _ (work n conn len buffer s s' run) none_between e = absurd (omega arith)
  Turn-IsClosed _ _ _ _ (done n s inactive) none_between e =
      (none_between, record { inactive = e; silent = refl })

  none_between-IsClosed :
      (s : Server) (n : ℕ) (s' : Server)
      → Runs w 0 s n s'
      → s.network_active ≡ false
      → (n ≡ 0) × IsClosed s s'
  none_between-IsClosed s _ _ start e = (refl, record { inactive = e; silent = refl })
  none_between-IsClosed s _ _ (next m k t u r turn) e =
      let (none_yet, before) = none_between-IsClosed s m t r e in
      let (none_left, after) = Turn-IsClosed m k t u turn none_yet before.inactive in
      (none_left, record { inactive = after.inactive; silent = after.silent ∙ before.silent })

  -- Once the network has been found inactive and no worker is past its test of `networkActive`, it
  -- stays inactive in any order of the threads' turns, and nothing more is given to the serial
  -- port: no connection that comes later drives the rover.
  pub Runs-IsClosed :
      (n : ℕ) (s s' : Server) → Runs w 0 s n s' → s.network_active ≡ false → IsClosed s s'
  Runs-IsClosed n s s' r e = (none_between-IsClosed s n s' r e).1
