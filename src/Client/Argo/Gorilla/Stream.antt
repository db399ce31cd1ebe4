-- ===== src/Client/Argo/Gorilla/Stream.antt =====
-- A `GorillaConn` is a byte stream: no byte of a message is lost, repeated or reordered.
use mathlib.Core.Path.{subst}
use cftun.Common.{
  ℕ, zero, suc, ◌+◌, ◌<◌, ◌≤◌, ◌≡◌, refl, ap, sym, ◌∙◌, Option, none, some, List, [], ◌∷◌, ◌++◌,
  flatten, append_assoc, arith, Bytes, length, take, drop, length-drop, take-append-drop,
  length-take, length-append,
}
use cftun.Client.Argo.Gorilla.{GorillaConn, read}

-- The bytes that are still to come.
abbrev pub pending : GorillaConn → Bytes
pending c = c.read_buf ++ flatten c.inbox

-- What one read delivers, in either branch.
abbrev pub Delivers : ℕ → GorillaConn → GorillaConn × Option Bytes → Type 0
Delivers len c (c', some out) = (out ++ pending c' ≡ pending c) × (length out ≤ len)
Delivers len c (c', none) = (c' ≡ c) × (pending c ≡ [])

split : (len : ℕ) (xs ys : Bytes) → take len xs ++ (drop len xs ++ ys) ≡ xs ++ ys
split len xs ys =
    sym (append_assoc (take len xs) (drop len xs) ys)
    ∙ ap (λ zs. zs ++ ys) (take-append-drop len xs)

take-le : (len : ℕ) (xs : Bytes) → length (take len xs) ≤ len
take-le len xs = omega (arith, length-take len xs)

-- The branch that the buffer serves.
read_buffered :
    (len b : ℕ) (bs : Bytes) (inbox outbox : List Bytes)
    → read len (record { read_buf = b ∷ bs; inbox = inbox; outbox = outbox }) ≡ (
      record { read_buf = drop len (b ∷ bs); inbox = inbox; outbox = outbox },
      some (take len (b ∷ bs)),
    )
unfolding read
read_buffered len b bs inbox outbox = ground arith

read_cases :
    (len : ℕ) (buf : Bytes) (inbox outbox : List Bytes)
    → let c : GorillaConn = record { read_buf = buf; inbox = inbox; outbox = outbox } in
      Delivers len c (read len c)
unfolding read flatten
read_cases len [] [] outbox = (refl, refl)
read_cases len [] (m ∷ rest) outbox = (split len m (flatten rest), take-le len m)
read_cases len (b ∷ bs) inbox outbox =
    subst (Delivers len _) (sym (read_buffered len b bs inbox outbox))
      (split len (b ∷ bs) (flatten inbox), take-le len (b ∷ bs))

-- A read returns the next bytes of the stream, as many as fit at most, and fails only when the
-- stream is at its end, and then changes nothing.
pub read-Delivers : (len : ℕ) (c : GorillaConn) → Delivers len c (read len c)
read-Delivers len c = read_cases len c.read_buf c.inbox c.outbox

-- Bytes and messages to come.
abbrev pub left : GorillaConn → ℕ
left c = length (pending c) + length c.inbox

-- What is to come gets less.
abbrev pub Advances : GorillaConn → GorillaConn × Option Bytes → Type 0
Advances c (c', some out) = left c' < left c
Advances c (c', none) = Unit

advance_cases :
    (len : ℕ) (buf : Bytes) (inbox outbox : List Bytes)
    → 0 < len
    → let c : GorillaConn = record { read_buf = buf; inbox = inbox; outbox = outbox } in
      Advances c (read len c)
unfolding read flatten
advance_cases len [] [] outbox h = tt
advance_cases len [] (m ∷ rest) outbox h = omega (
  arith,
  length-append (drop len m) (flatten rest),
  length-append m (flatten rest),
  length-drop len m,
)
advance_cases len (b ∷ bs) inbox outbox h =
    subst (Advances (record { read_buf = b ∷ bs; inbox = inbox; outbox = outbox }))
      (sym (read_buffered len b bs inbox outbox))
      (omega (
        arith,
        length-append (drop len (b ∷ bs)) (flatten inbox),
        length-append (b ∷ bs) (flatten inbox),
        length-drop len (b ∷ bs),
      ))

abbrev prepend : Bytes → Option Bytes → Option Bytes
prepend out none = none
prepend out (some more) = some (out ++ more)

-- Reads with a buffer of `len` bytes up to the error that ends the stream; `none` is out of fuel.
unfoldable pub read_all : ℕ → ℕ → GorillaConn → Option Bytes
read_all zero len c = none
read_all (suc fuel) len c =
    let (c', out) = read len c in
    elim out [ none ↦ some [] | some bytes ↦ prepend bytes (read_all fuel len c') ]

-- A read into a buffer that is not empty makes progress.
pub read-Advances : (len : ℕ) (c : GorillaConn) → 0 < len → Advances c (read len c)
read-Advances len c h = advance_cases len c.read_buf c.inbox c.outbox h

-- One round of it, when the rest of the stream is read as it should be.
read_round :
    (fuel len : ℕ) (c : GorillaConn) (r : GorillaConn × Option Bytes)
    → Delivers len c r
    → Advances c r
    → ((c' : GorillaConn) → left c' < left c → read_all fuel len c' ≡ some (pending c'))
    → (elim r.1 [ none ↦ some [] | some bytes ↦ prepend bytes (read_all fuel len r.0) ])
      ≡ some (pending c)
read_round fuel len c (c', none) d a rest = ap some (sym d.1)
read_round fuel len c (c', some out) d a rest = rw (rest c' a) (ap some d.0)

-- Reading to the end with any buffer that is not empty delivers the whole stream, on more fuel than
-- there are bytes and messages to come.
pub read_all-pending :
    (fuel len : ℕ) (c : GorillaConn)
    → 0 < len
    → length (pending c) + length c.inbox < fuel
    → read_all fuel len c ≡ some (pending c)
unfolding read_all
read_all-pending zero len c h enough = absurd (omega arith)
read_all-pending (suc fuel) len c h enough =
    read_round fuel len c (read len c) (read-Delivers len c)
      (advance_cases len c.read_buf c.inbox c.outbox h)
      (λ c' less. read_all-pending fuel len c' h (omega arith))
