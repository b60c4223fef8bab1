-- ===== src/Alex/Tests/Listening.antt =====
-- The OK to a stop, read by the server in two pieces.
use cg2111a_b.Base.{some, true, replicate}
use cg2111a_b.Packet.{Packet}
use cg2111a_b.Serialize.{init}
use cg2111a_b.Server.Listener.{Listening}
use cg2111a_b.Server.Tests.{leftover, serving}

abbrev listening : Listening leftover
listening = record {
  buffer = replicate 140 0;
  packet = replicate 100 0;
  receiver = init;
  state = some (serving true);
}
