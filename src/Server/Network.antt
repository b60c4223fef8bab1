-- ===== src/Server/Network.antt =====
-- The network half of server/tls-alex-server.cpp.
use cg2111a_b.Base.{
  ℕ, ◌>>=◌, ◌||◌, ◌∷◌, [], List, Option, some, none, if◌then◌else◌, ◌==◌, get_elem?, take, drop,
  length, leb,
}
use cg2111a_b.Base.Int.{ℤ, pos, ltb_ℤ}
use cg2111a_b.Memory.{le_word}
use cg2111a_b.Packet.{Packet, set_param}
use cg2111a_b.Pi.{
  CommandType, command_forward, command_reverse, command_turn_left, command_turn_right,
  command_stop, command_get_stats, command_clear_stats, command_code,
}
use cg2111a_b.Server.{Server, Locals, printf, perror, call, uart_command, net_command_packet}
use cg2111a_b.Server.Uart.{uart_send_packet}

-- The cases of the switch of `handleCommand`.
pub data NetCase : Type 0 where
  drive : CommandType → NetCase
  reset refuse : NetCase

unfoldable pub net_case_of : ℕ → NetCase
net_case_of c =
    if c == b'f' || c == b'F'
    then drive command_forward
    else (if c == b'b' || c == b'B'
        then drive command_reverse
        else (if c == b'l' || c == b'L'
            then drive command_turn_left
            else (if c == b'r' || c == b'R'
                then drive command_turn_right
                else (if c == b's' || c == b'S'
                    then drive command_stop
                    else (if c == b'c' || c == b'C'
                        then reset
                        else (if c == b'g' || c == b'G'
                            then drive command_get_stats
                            else refuse))))))

-- The two parameters in bytes 2 to 9 of the buffer.
abbrev pub net_param : List ℕ → ℕ → ℕ
net_param buffer from = le_word (take 4 (drop from buffer))

-- The end of `worker`.
abbrev pub worker_done : Server → Server
worker_done s = record s { tls_conn = none }

module _ (w : Locals) where
  open w use {stack}

  unfoldable pub run_net_case : NetCase → Packet → Server → Option Server
  run_net_case (drive code) p s = uart_send_packet w (record p { command = command_code code }) s
  run_net_case reset p s =
      uart_send_packet w (set_param 0 0 (record p { command = command_code command_clear_stats })) s
  run_net_case refuse p s = some (call (printf "Bad command\n" []) s)

  -- A buffer that ends before the parameters is read past its end, a fault.
  unfoldable pub handle_command : List ℕ → Server → Option Server
  unfolding run_net_case
  handle_command buffer s =
      let a = net_param buffer 2 in
      let b = net_param buffer 6 in
      let p =
        set_param 1 b (set_param 0 a (record ((stack s).packet) { packet_type = uart_command })) in
      let run = (do
        cmd ← get_elem? buffer 1
        run_net_case (net_case_of cmd) p
            (call (printf "COMMAND RECEIVED: %c %d %d\n" (cmd ∷ a ∷ b ∷ [])) s)) in
      if leb 10 (length buffer) then run else none

  unfoldable pub handle_network_data : ℕ → List ℕ → Server → Option Server
  unfolding handle_command
  handle_network_data conn buffer s =
      let known = record s { tls_conn = some conn } in
      do
        kind ← get_elem? buffer 0
        let handled = handle_command buffer known
        if kind == net_command_packet then handled else some known

  -- The body of the loop of `worker`; the code that would read is missing, so `len` and the buffer are
  -- what the locals hold.
  unfoldable pub worker_turn : ℕ → ℤ → List ℕ → Server → Option Server
  unfolding handle_network_data
  worker_turn conn len buffer s =
      let read = record s { network_active = ltb_ℤ (pos 0) len } in
      let handled = handle_network_data conn buffer read in
      if ltb_ℤ (pos 0) len
      then handled
      else some (if ltb_ℤ len (pos 0) then call (perror "ERROR READING NETWORK: ") read else read)
