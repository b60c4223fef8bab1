-- ===== src/Tls/Stale.antt =====
-- What the echo server (server/test_tls_server.cpp) sends back: its whole array, whatever was read.
use cg2111a_b.Base.{
  Option, none, some, ◌⊎◌, Option-cases, ℕ, ◌≤◌, ◌≡◌, refl, ap, ◌∙◌, arith, List, [], ◌∷◌, ◌++◌,
  length, drop, All, if◌then◌else◌, Bool-cases, inl, inr,
}
use cg2111a_b.Base.Int.{ℤ, pos, leb_ℤ, ltb_ℤ}
use cg2111a_b.Memory.{overwrite, c_string}
use cg2111a_b.Link.Stream.{overwrite_front}
use cg2111a_b.Tls.Echo.{
  Exchange, read_bytes, closed, broken, Event, echoed, perror, printf, turn, work, buffer_len,
}

-- The echoes, the last one first.
abbrev pub echoes : List Event → List (List ℕ)
echoes [] = []
echoes (echoed bytes ∷ calls) = bytes ∷ echoes calls
echoes (_ ∷ calls) = echoes calls

-- The array has its size, and what is read fits it.
abbrev pub IsExchange : Exchange → Type 0
IsExchange (read_bytes held bytes answer) = (length held ≡ buffer_len) × (length bytes ≤ buffer_len)
IsExchange _ = Unit

-- Each echo is what was read, then what the array held in that turn behind it; the first exchange
-- that is not a read that was written ends the worker.
abbrev pub expected : List Exchange → List (List ℕ) → List (List ℕ)
expected [] older = older
expected (read_bytes held bytes answer ∷ es) older =
    let now = bytes ++ drop (length bytes) held in
    let rest = expected es (now ∷ older) in if leb_ℤ answer (pos 0) then now ∷ older else rest
expected (_ ∷ es) older = older

-- One of the arrays that are printed has no terminator.
abbrev pub HasUnended : List Exchange → Type 0
HasUnended [] = ⊥
HasUnended (read_bytes held bytes answer ∷ es) =
    (c_string (overwrite held bytes) ≡ none) ⊎ HasUnended es
HasUnended (_ ∷ es) = HasUnended es

-- The worker faults, on such an array, or its echoes are the expected ones.
abbrev pub Echoes : List Exchange → List Event → Option (List Event) → Type 0
Echoes es calls m =
    ((m ≡ none) × HasUnended es)
    ⊎ ((calls' : List Event) × (m ≡ some calls') × (echoes calls' ≡ expected es (echoes calls)))

-- What is said after the bytes were sent or were not.
abbrev told : ℤ → List Event → List Event
told answer sent = if ltb_ℤ answer (pos 0) then perror "Error writing to network: " ∷ sent else sent

echoes-told : (answer : ℤ) (sent : List Event) → echoes (told answer sent) ≡ echoes sent
echoes-told answer sent = elim (Bool-cases (ltb_ℤ answer (pos 0))) [
  | inl e ↦ rw e refl
  | inr e ↦ rw e refl
]

-- With reads of at most 128 bytes, over any exchanges and whatever its array holds at the start of
-- each turn, the worker sends the expected echoes: whole arrays of 128 bytes, of which only the
-- front was read. It faults nowhere, unless one of the arrays that it prints has no terminator.
pub work-Echoes :
    (es : List Exchange) (calls : List Event) → All IsExchange es → Echoes es calls (work es calls)
unfolding work turn
work-Echoes [] calls shape = inr (calls, refl, refl)
work-Echoes (closed ∷ es) calls shape = inr (_, refl, refl)
work-Echoes (broken ∷ es) calls shape = inr (_, refl, refl)
work-Echoes (read_bytes held bytes answer ∷ es) calls ((size, fits), shape) =
    let filled = overwrite_front held bytes (omega arith) in
    elim (Option-cases (c_string (overwrite held bytes))) [
      | inl e ↦ inl (rw e refl, inl e)
      | inr (message, e) ↦
          let sent = echoed (overwrite held bytes) ∷ printf "Read %s. Echoing.\n" message ∷ calls in
          let same = echoes-told answer sent ∙ ap (λ b. b ∷ echoes calls) filled in
          rw e (elim (Bool-cases (leb_ℤ answer (pos 0))) [
            | inl stop ↦ rw stop (inr (_, refl, same))
            | inr more ↦ rw more (elim (work-Echoes es (told answer sent) shape) [
              | inl (fault, unended) ↦ inl (fault, inr unended)
              | inr (calls', run, ok) ↦ inr (calls', run, ok ∙ ap (λ older. expected es older) same)
            ])
          ])
    ]
