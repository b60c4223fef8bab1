-- ===== src/Server/Receiving.antt =====
-- What the loop of the server's serial listener (server/tls-alex-server.cpp) may change, whatever it
-- reads.
use cg2111a_b.Base.{
  ℕ, ◌≡◌, refl, sym, ◌∙◌, List, [], ◌∷◌, Option, some, >>=-eq-some, false, false≢true, if-holds,
  Ensures, Ensures-if, Ensures-at, Option-cases, inl, inr, ◌==◌,
}
use cg2111a_b.Memory.{c_string}
use cg2111a_b.Packet.{Packet, as_packet, words_bytes}
use cg2111a_b.Serialize.{Result, packet_bad, packet_checksum_bad}
use cg2111a_b.Link.{Read}
use cg2111a_b.Link.Chains.{receive-Steps}
use cg2111a_b.Pi.{resp_ok, resp_status}
use cg2111a_b.Pi.Sound.{some_inj}
use cg2111a_b.Server.{
  Server, Locals, Call, uart_response, uart_error, uart_message, net_error_packet,
  net_status_packet, net_message_packet,
}
use cg2111a_b.Server.Uart.{
  send_network_data, report_error, forward_message, forward_status, forward_response,
  handle_uart_packet, uart_error_seen,
}
use cg2111a_b.Server.Listener.{
  uart_packet_error, uart_handled, uart_refused, uart_receive, Listening,
}
use cg2111a_b.Server.Requests.{sent}

-- Nothing was given to the serial port, which is the same, the client that commands came from is
-- the same, and a network that was inactive is.
pub record IsPassive (s s' : Server) : Type 0 where
  pub fd : s'.fd ≡ s.fd
  pub tls_conn : s'.tls_conn ≡ s.tls_conn
  pub silent : sent s'.calls ≡ sent s.calls
  pub closed : s.network_active ≡ false → s'.network_active ≡ false

called-IsPassive :
    (s : Server) (calls : List Call)
    → sent calls ≡ sent s.calls
    → IsPassive s (record s { calls = calls })
called-IsPassive s calls e = record {
  fd = refl;
  tls_conn = refl;
  silent = e;
  closed = λ inactive. inactive;
}

IsPassive-trans : (r s t : Server) → IsPassive r s → IsPassive s t → IsPassive r t
IsPassive-trans r s t h k = record {
  fd = k.fd ∙ h.fd;
  tls_conn = k.tls_conn ∙ h.tls_conn;
  silent = k.silent ∙ h.silent;
  closed = λ inactive. k.closed (h.closed inactive);
}

uart_packet_error-IsPassive : (r : Result) (s : Server) → IsPassive s (uart_packet_error r s)
unfolding uart_packet_error uart_error_seen
uart_packet_error-IsPassive packet_bad s = called-IsPassive s _ refl
uart_packet_error-IsPassive packet_checksum_bad s = called-IsPassive s _ refl
uart_packet_error-IsPassive _ s = called-IsPassive s _ refl

module _ (w : Locals) where
  send_network_data-IsPassive :
      (bytes : List ℕ) (s : Server) → IsPassive s (send_network_data w bytes s)
  unfolding send_network_data
  send_network_data-IsPassive bytes s =
      if-holds (IsPassive s) s.network_active _ s
        (λ active. record {
          fd = refl;
          tls_conn = refl;
          silent = refl;
          closed = λ inactive. absurd (false≢true (sym inactive ∙ active));
        })
        (λ e. called-IsPassive s s.calls refl)

  -- Data that are sent after a line was printed.
  told :
      (bytes : List ℕ) (s : Server) (calls : List Call)
      → sent calls ≡ sent s.calls
      → IsPassive s (send_network_data w bytes (record s { calls = calls }))
  told bytes s calls e =
      IsPassive-trans s (record s { calls = calls }) _ (called-IsPassive s calls e)
        (send_network_data-IsPassive bytes (record s { calls = calls }))

  forward_response-IsPassive : (p : Packet) (s : Server) → IsPassive s (forward_response w p s)
  unfolding forward_response forward_status
  forward_response-IsPassive p s =
      if-holds (IsPassive s) (p.command == resp_ok) _ _
        (λ e. told (net_error_packet ∷ resp_ok ∷ []) s _ refl)
        (λ e.
          if-holds (IsPassive s) (p.command == resp_status) _ _
            (λ k. told (net_status_packet ∷ words_bytes p.params) s _ refl)
            (λ k. called-IsPassive s _ refl))

  forward_message-IsPassive :
      (p : Packet) (s : Server) → Ensures (IsPassive s) (forward_message w p s)
  unfolding forward_message
  forward_message-IsPassive p s = elim (Option-cases (c_string p.text)) [
    | inl unended ↦ rw unended tt
    | inr (message, ended) ↦ rw ended (told (net_message_packet ∷ p.text) s _ refl)
  ]

  handle_uart_packet-IsPassive :
      (p : Packet) (s : Server) → Ensures (IsPassive s) (handle_uart_packet w p s)
  unfolding handle_uart_packet report_error
  handle_uart_packet-IsPassive p s =
      Ensures-if (IsPassive s) (p.packet_type == uart_response) _ _ (forward_response-IsPassive p s)
        (Ensures-if (IsPassive s) (p.packet_type == uart_error) _ _
          (told (net_error_packet ∷ p.command ∷ []) s _ refl)
          (Ensures-if (IsPassive s) (p.packet_type == uart_message) _ _
            (forward_message-IsPassive p s) (called-IsPassive s s.calls refl)))

  -- Where the later of two states is no fault, the earlier was none.
  Later : Option Server → Option Server → Type 0
  Later m m' = (s' : Server) → m' ≡ some s' → (s : Server) × (m ≡ some s) × IsPassive s s'

  same-Later : (m : Option Server) → Later m m
  unfolding Later
  same-Later m s' e = (s', e, called-IsPassive s' s'.calls refl)

  joined-Later : (m n o : Option Server) → Later m n → Later n o → Later m o
  unfolding Later
  joined-Later m n o h k s' e =
      let (s1, e1, q1) = k s' e in
      let (s, e0, q0) = h s1 e1 in (s, e0, IsPassive-trans s s1 s' q0 q1)

  packet-Later : (bytes : List ℕ) (m : Option Server) → Later m (uart_handled w bytes m)
  unfolding Later
  packet-Later bytes m s' e =
      let p = as_packet bytes in
      let (s, was, run) = >>=-eq-some m (handle_uart_packet w p) e in
      (
        s,
        was,
        Ensures-at (IsPassive s) (handle_uart_packet w p s) s' run
            (handle_uart_packet-IsPassive p s),
      )

  error-Later : (r : Result) (m : Option Server) → Later m (uart_refused r m)
  unfolding Later
  error-Later r m s' e =
      let (s, was, run) = >>=-eq-some m (λ s. some (uart_packet_error r s)) e in
      (
        s,
        was,
        Ensures-at (IsPassive s) (some (uart_packet_error r s)) s' run
            (uart_packet_error-IsPassive r s),
      )

  -- Whatever bytes the listener reads, and however many packets and errors it takes them for, a run
  -- of its loop that faults nowhere gives nothing to the serial port, keeps the port and the
  -- connection that commands came from, and leaves a network inactive that was.
  pub uart_receive-IsPassive :
      (rs : List Read) (t t' : Listening w) (s s' : Server)
      → uart_receive w t rs ≡ some t'
      → t.state ≡ some s
      → t'.state ≡ some s'
      → IsPassive s s'
  unfolding Later
  uart_receive-IsPassive rs t t' s s' run before after =
      let (s0, e, passive) =
        receive-Steps (uart_handled w) uart_refused Later same-Later joined-Later packet-Later
          error-Later rs t t' run s' after in
      let same : s0 ≡ s = some_inj (sym e ∙ before) in rw (← same) passive
