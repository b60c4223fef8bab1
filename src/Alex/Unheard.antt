-- ===== src/Alex/Unheard.antt =====
-- The replies of the firmware (alex/usart.ino) in the serial listener of the server
-- (server/tls-alex-server.cpp), whose packet types are numbered in another way.
use cg2111a_b.Base.{Option, none, partly, ℕ, ◌≡◌, ◌⊎◌, List, [], ◌∷◌, ◌++◌, some, All}
use cg2111a_b.Memory.{c_string}
use cg2111a_b.Packet.{Packet}
use cg2111a_b.Server.{Server, Locals, Call, printf}
use cg2111a_b.Server.Uart.{handle_uart_packet}
use cg2111a_b.Server.Listener.{uart_refused}
use cg2111a_b.Alex.{Alex}
use cg2111a_b.Alex.Framing.{Framing}
use cg2111a_b.Alex.Carrying.{seen}

-- The two calls that passing a message on to the client makes.
abbrev IsPassing : Call → Type 0
IsPassing c =
    (c ≡ printf "WRITING TO CLIENT\n" [])
    ⊎ ((text : List ℕ) × (c ≡ printf "UART MESSAGE PACKET: %s\n" text))

-- From one state to the other nothing was called but these.
abbrev pub OnlyMessages : Server → Server → Type 0
OnlyMessages s t = (made : List Call) × (t.calls ≡ made ++ s.calls) × All IsPassing made

-- The types that the firmware answers with: a response or an error.
abbrev IsAnswer : ℕ × ℕ → Type 0
IsAnswer code = (code.0 ≡ 3) ⊎ (code.0 ≡ 4)

-- One of the packets has a text without a terminator.
abbrev pub HasUnended : List Packet → Type 0
HasUnended [] = ⊥
HasUnended (p ∷ ps) = (c_string p.text ≡ none) ⊎ HasUnended ps

-- What the listener makes of some packets, from a state on: a fault, which one of their texts is
-- to blame for, or calls that pass messages on.
abbrev pub Heard : List Packet → Server → Option Server → Type 0
Heard ps s m = ((m ≡ none) × HasUnended ps) ⊎ ((s' : Server) × (m ≡ some s') × OnlyMessages s s')

module _ (w : Locals) where
  heard : List Packet → Server → Option Server
  heard ps s = seen (partly (handle_uart_packet w)) uart_refused ps (some s)
