-- ===== src/Memory/Splice.antt =====
-- What the copying loops leave in the array that they write to.
use cg2111a_b.Base.{
  ℕ, zero, suc, ◌+◌, ◌≤◌, ◌<◌, ◌≡◌, refl, sym, ap, ◌∙◌, arith, List, [], ◌∷◌, ◌++◌, some, length,
  set, take, drop, drop_cons, get_elem?-some, le→leb, take_all,
}
use native.Mathlib.Nat.{suc-add}
use cg2111a_b.Memory.{store, copy, overwrite, memcpy}

-- `bs` written into an array from index `i` on.
abbrev pub splice : List ℕ → ℕ → List ℕ → List ℕ
splice dest zero bs = overwrite dest bs
splice [] (suc i) bs = []
splice (x ∷ dest) (suc i) bs = x ∷ splice dest i bs

overwrite_nil : (bs : List ℕ) → overwrite [] bs ≡ []
overwrite_nil [] = refl
overwrite_nil (b ∷ bs) = refl

splice_nil : (i : ℕ) (bs : List ℕ) → splice [] i bs ≡ []
splice_nil zero bs = overwrite_nil bs
splice_nil (suc i) bs = refl

pub length-overwrite : (dest bs : List ℕ) → length (overwrite dest bs) ≡ length dest
length-overwrite dest [] = refl
length-overwrite [] (b ∷ bs) = refl
length-overwrite (x ∷ dest) (b ∷ bs) = ap suc (length-overwrite dest bs)

pub length-splice : (dest : List ℕ) (i : ℕ) (bs : List ℕ) → length (splice dest i bs) ≡ length dest
length-splice dest zero bs = length-overwrite dest bs
length-splice [] (suc i) bs = refl
length-splice (x ∷ dest) (suc i) bs = ap suc (length-splice dest i bs)

splice-overwrite :
    (dest bs cs : List ℕ) → splice (overwrite dest bs) (length bs) cs ≡ overwrite dest (bs ++ cs)
splice-overwrite dest [] cs = refl
splice-overwrite [] (b ∷ bs) cs = refl
splice-overwrite (x ∷ dest) (b ∷ bs) cs = ap (λ t. b ∷ t) (splice-overwrite dest bs cs)

-- Two writes, the second where the first ended, are one.
pub splice-splice :
    (dest : List ℕ) (i : ℕ) (bs cs : List ℕ)
    → splice (splice dest i bs) (i + length bs) cs ≡ splice dest i (bs ++ cs)
splice-splice dest zero bs cs =
    ap (λ (t : ℕ). splice (overwrite dest bs) t cs) (omega arith) ∙ splice-overwrite dest bs cs
splice-splice [] (suc i) bs cs = splice_nil (suc i + length bs) cs
splice-splice (x ∷ dest) (suc i) bs cs = rw suc-add (ap (λ t. x ∷ t) (splice-splice dest i bs cs))

-- Nothing written, nothing changed.
splice-nil : (dest : List ℕ) (i : ℕ) → splice dest i [] ≡ dest
splice-nil dest zero = refl
splice-nil [] (suc i) = refl
splice-nil (x ∷ dest) (suc i) = ap (λ t. x ∷ t) (splice-nil dest i)

store-eq-splice :
    (dest : List ℕ) (i b : ℕ) → i < length dest → store dest i b ≡ some (splice dest i (b ∷ []))
store-eq-splice [] i b h = absurd (omega arith)
store-eq-splice (x ∷ dest) zero b h = refl
store-eq-splice (x ∷ dest) (suc i) b h = rw (store-eq-splice dest i b (omega arith))

-- A copying loop whose indices stay in both arrays.
pub copy_lem :
    (src : List ℕ) (left si : ℕ) (dest : List ℕ) (di : ℕ)
    → si + left ≤ length src
    → di + left ≤ length dest
    → copy src left si dest di ≡ some (splice dest di (take left (drop si src)))
unfolding copy
copy_lem src zero si dest di h k = ap some (sym (splice-nil dest di))
copy_lem src (suc left) si dest di h k =
    let (b, e) = get_elem?-some src si (omega arith) in
    let here = splice dest di (b ∷ []) in
    let rest = take left (drop (suc si) src) in
    let fits : suc di + left ≤ length here = omega (arith, length-splice dest di (b ∷ [])) in
    rw (e, store-eq-splice dest di b (omega arith), drop_cons si src e)
      (copy_lem src left (suc si) here (suc di) (omega arith) fits
        ∙ ap (λ (t : ℕ). some (splice here t rest)) (let e' : suc di ≡ di + 1 = omega arith in e')
        ∙ ap some (splice-splice dest di (b ∷ []) rest))

pub take-overwrite :
    (dest bs : List ℕ) → length bs ≤ length dest → take (length bs) (overwrite dest bs) ≡ bs
take-overwrite dest [] h = refl
take-overwrite [] (b ∷ bs) h = absurd (omega arith)
take-overwrite (x ∷ dest) (b ∷ bs) h = ap (λ t. b ∷ t) (take-overwrite dest bs (omega arith))

-- The front of the array up to the end of what was written.
pub take-splice :
    (dest : List ℕ) (i : ℕ) (bs : List ℕ)
    → i + length bs ≤ length dest
    → take (i + length bs) (splice dest i bs) ≡ take i dest ++ bs
take-splice dest zero bs h =
    ap (λ (t : ℕ). take t (overwrite dest bs)) (omega arith) ∙ take-overwrite dest bs (omega arith)
take-splice [] (suc i) bs h = absurd (omega arith)
take-splice (x ∷ dest) (suc i) bs h =
    rw suc-add (ap (λ t. x ∷ t) (take-splice dest i bs (omega arith)))

-- Bytes written over the whole of an array are its new contents.
pub overwrite_all : (dest bs : List ℕ) → length bs ≡ length dest → overwrite dest bs ≡ bs
overwrite_all [] [] h = refl
overwrite_all (x ∷ dest) [] h = absurd (omega arith)
overwrite_all [] (b ∷ bs) h = absurd (omega arith)
overwrite_all (x ∷ dest) (b ∷ bs) h = ap (λ t. b ∷ t) (overwrite_all dest bs (omega arith))

-- A `memcpy` of a whole array that fits.
pub memcpy_lem :
    (dest src : List ℕ) (n : ℕ)
    → n ≡ length src
    → n ≤ length dest
    → memcpy dest src n ≡ some (overwrite dest src)
unfolding memcpy
memcpy_lem dest src n e h =
    rw (le→leb n (length dest) h, le→leb n (length src) (omega arith), take_all n src (omega arith))

-- A byte changed after the write could have been changed before it.
pub set-overwrite :
    (dest xs : List ℕ) (x y : ℕ) (ys : List ℕ)
    → set (overwrite dest (xs ++ (x ∷ ys))) (length xs) y ≡ overwrite dest (xs ++ (y ∷ ys))
set-overwrite [] [] x y ys = refl
set-overwrite (d ∷ dest) [] x y ys = refl
set-overwrite [] (z ∷ xs) x y ys = refl
set-overwrite (d ∷ dest) (z ∷ xs) x y ys = ap (λ t. z ∷ t) (set-overwrite dest xs x y ys)
