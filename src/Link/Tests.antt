-- ===== src/Link/Tests.antt =====
-- Runs of the receiving threads: a packet in two reads, with an error between them.
use cg2111a_b.Base.{◌++◌, ℕ, ◌≡◌, refl, List, [], ◌∷◌, some, replicate, arith, take, drop}
use cg2111a_b.Serialize.{Result, init, comms_bytes, as_comms}
use cg2111a_b.Serialize.Pending.{pending}
use cg2111a_b.Serialize.Roundtrip.{frame}
use cg2111a_b.Serialize.Tests.{blank, blank-IsComms, init-IsValid}
use cg2111a_b.Link.{Read, got, failed, Thread, receive}
use cg2111a_b.Link.Stream.{Sent}
use cg2111a_b.Link.Turns.{handle_all, IsRunning}
use cg2111a_b.Link.Blocks.{IsReady, judge_all, receive-blocks}
use cg2111a_b.Link.Delivery.{receive-stream}

-- A handler that keeps the packets.
abbrev keep : List ℕ → List (List ℕ) → List (List ℕ)
keep packet s = packet ∷ s

abbrev ignore : Result → List (List ℕ) → List (List ℕ)
ignore result s = s

abbrev fresh : Thread keep ignore
fresh = record { buffer = replicate 140 0; packet = replicate 100 0; receiver = init; state = [] }

fresh-IsRunning : IsRunning keep ignore fresh
fresh-IsRunning = record { buffer_size = refl; packet_len = refl; valid = init-IsValid }

abbrev sevens : Sent
sevens = record { slot = blank; structure = replicate 100 7 }

abbrev bytes : List ℕ
bytes = frame blank (replicate 100 7)

abbrev reads : List Read
reads = got (take 50 bytes) ∷ failed ∷ got (drop 50 bytes) ∷ []

receive-stream_example :
    (t' : Thread keep ignore) × (receive keep ignore fresh reads ≡ some t')
    × (t'.state ≡ handle_all keep ignore (sevens ∷ []) [])
    × (pending t'.receiver ≡ [])
receive-stream_example =
    receive-stream keep ignore fresh reads (sevens ∷ []) fresh-IsRunning ((blank-IsComms, refl), tt)
      (unfold comms_bytes in (omega arith, (omega arith, (omega arith, tt))))
      (unfold comms_bytes in refl)

-- A handler of errors that leaves a mark.
abbrev mark : Result → List (List ℕ) → List (List ℕ)
mark result s = [] ∷ s

abbrev watching : Thread keep mark
watching = record {
  buffer = replicate 140 0;
  packet = replicate 100 0;
  receiver = init;
  state = [];
}

watching-IsReady : IsReady keep mark watching
watching-IsReady = record { buffer_size = refl; valid = init-IsValid }

-- A block of zeros, and the first bytes of the next one.
abbrev noise : List Read
noise = got (replicate 100 0) ∷ got (replicate 40 0 ++ (1 ∷ 2 ∷ 3 ∷ [])) ∷ []

noise_judged :
    judge_all keep mark (replicate 140 0 ∷ []) (replicate 100 0) []
    ≡ some (replicate 100 0, [] ∷ [])
unfolding as_comms
noise_judged = refl

receive-blocks_example :
    (t' : Thread keep mark) × (receive keep mark watching noise ≡ some t')
    × (t'.packet ≡ replicate 100 0)
    × (t'.state ≡ [] ∷ [])
    × (pending t'.receiver ≡ 1 ∷ 2 ∷ 3 ∷ [])
receive-blocks_example =
    receive-blocks keep mark watching noise (1 ∷ 2 ∷ 3 ∷ []) (replicate 140 0 ∷ [])
      (replicate 100 0, [] ∷ []) watching-IsReady (refl, tt) (omega arith)
      (omega arith, (omega arith, tt)) refl noise_judged
