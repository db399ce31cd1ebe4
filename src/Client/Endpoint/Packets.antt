-- ===== src/Client/Endpoint/Packets.antt =====
-- The packets that pass an endpoint.
use cftun.Common.{
  All-append, ℕ, zero, suc, ◌+◌, ◌≤◌, ◌≡◌, refl, ◌∙◌, Bool, true, false, not, ◌||◌, Option, none,
  some, List, [], ◌∷◌, ◌++◌, All, Bytes, length, take, drop, arith, ltb, ◌==◌, length-take,
  length-drop, Option-cases, Bool-cases, inl, inr,
}
use cftun.Client.Endpoint.{
  Endpoint, Reading, Protocol, version_of, inject, dispatch_loop, write_packet,
}

-- A packet of the protocol that fits the endpoint.
pub record IsPacket (e : Endpoint) (p : Protocol) (packet : Bytes) : Type 0 where
  pub fits : length packet ≤ e.mtu
  pub starts : 1 ≤ length packet
  pub version : version_of packet ≡ some p

-- The device gives back what was written for a packet, in front of what the buffer held, and counts
-- the packet alone.
abbrev pub echo : Endpoint → Bytes → Bytes → Reading
echo e packet rest = record {
  n = some (length packet);
  buf = write_packet e packet ++ rest;
  attached = true;
}

-- The three ways through the body of the loop.
abbrev skipped : Endpoint → ℕ → Reading → Bool
skipped e n r = n == 0 || ltb e.mtu n || not r.attached

inject-skipped : (e : Endpoint) (n : ℕ) (r : Reading) → skipped e n r ≡ true → inject e n r ≡ []
unfolding inject
inject-skipped e n r h = rw (h, inject) refl

inject_unknown :
    (e : Endpoint) (n : ℕ) (r : Reading)
    → skipped e n r ≡ false
    → version_of (drop e.offset r.buf) ≡ none
    → inject e n r ≡ []
unfolding inject
inject_unknown e n r h v = rw (h, v, inject) refl

inject_known :
    (e : Endpoint) (n : ℕ) (r : Reading) (p : Protocol)
    → skipped e n r ≡ false
    → version_of (drop e.offset r.buf) ≡ some p
    → inject e n r ≡ (p, take n (drop e.offset r.buf)) ∷ []
unfolding inject
inject_known e n r p h v = rw (h, v, inject) refl

-- A read that fails.
abbrev pub broken : Reading
broken = record { n = none; buf = []; attached = false }

version-take : (n : ℕ) (xs : Bytes) → 1 ≤ n → version_of (take n xs) ≡ version_of xs
unfolding version_of
version-take zero xs h = absurd (omega arith)
version-take (suc n) [] h = refl
version-take (suc n) (b ∷ xs) h = refl

inject-IsPacket :
    (e : Endpoint) (n : ℕ) (r : Reading)
    → length r.buf ≡ e.offset + e.mtu
    → All (λ (q : Protocol × Bytes). IsPacket e q.0 q.1) (inject e n r)
inject-IsPacket e n r room = elim (Bool-cases (skipped e n r)) [
  | inl skip ↦ rw (inject-skipped e n r skip) tt
  | inr go ↦ elim (Option-cases (version_of (drop e.offset r.buf))) [
    | inl unknown ↦ rw (inject_unknown e n r go unknown) tt
    | inr (p, known) ↦
        let bounds : (1 ≤ n) × (n ≤ e.mtu) = ground (arith, go) in
        let long : length (take n (drop e.offset r.buf)) ≡ n =
          omega (arith, length-take n (drop e.offset r.buf), length-drop e.offset r.buf) in
        rw (inject_known e n r p go known) (
          record {
            fits = omega arith;
            starts = omega arith;
            version = version-take n (drop e.offset r.buf) bounds.0 ∙ known;
          },
          tt,
        )
  ]
]

-- A round of the loop, by what the read returns.
abbrev after_read : Endpoint → Reading → List Reading → Option ℕ → List (Protocol × Bytes) × Bool
after_read e r rest none = ([], true)
after_read e r rest (some n) = (inject e n r ++ (dispatch_loop e rest).0, (dispatch_loop e rest).1)

-- Whatever the device answers into its buffer, each packet that is injected has a length from 1 to
-- the MTU and starts with the version of the protocol that it is injected under.
pub dispatch_loop-IsPacket :
    (e : Endpoint) (readings : List Reading)
    → All (λ (r : Reading). length r.buf ≡ e.offset + e.mtu) readings
    → All (λ (q : Protocol × Bytes). IsPacket e q.0 q.1) (dispatch_loop e readings).0
unfolding dispatch_loop
dispatch_loop-IsPacket e [] h = tt
dispatch_loop-IsPacket e (r ∷ rest) h = go r.n (dispatch_loop-IsPacket e rest h.1)
  where
    go :
        (o : Option ℕ)
        → All (λ (q : Protocol × Bytes). IsPacket e q.0 q.1) (dispatch_loop e rest).0
        → All (λ (q : Protocol × Bytes). IsPacket e q.0 q.1) (after_read e r rest o).0
    go none later = tt
    go (some n) later =
        All-append (λ (q : Protocol × Bytes). IsPacket e q.0 q.1) (inject e n r)
          (dispatch_loop e rest).0 (inject-IsPacket e n r h.0) later
