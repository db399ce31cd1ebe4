-- ===== src/Server/Key/Clamp.antt =====
-- A private key has the form that Curve25519 asks for.
use native.Mathlib.Decide.{dec_lt}
use cftun.Common.{
  ℕ, zero, suc, ◌≡◌, refl, sym, ◌∙◌, ap, ◌+◌, ◌≢◌, ◌%◌, ◌≤◌, ◌<◌, Bool, true, false, ◌&&◌,
  if◌then◌else◌, ltb, leb, ◌==◌, some, [], ◌∷◌, Bytes, length, All, get_or, set, length-set, arith,
}
use cftun.Server.Key.{new_private_key, clamp_first, clamp_last, clamp}

-- A test of every number below a bound, and what a number that is below it has of it.
tested : (ℕ → Bool) → ℕ → Bool
tested test zero = true
tested test (suc bound) = if test bound then tested test bound else false

if_true : (a b : Bool) → (if a then b else false) ≡ true → (a ≡ true) × (b ≡ true)
if_true true b e = (refl, e)
if_true false b e = cc

tested_lem : (test : ℕ → Bool) (bound k : ℕ) → tested test bound ≡ true → k < bound → test k ≡ true
unfolding tested
tested_lem test zero k e below = absurd (omega arith)
tested_lem test (suc bound) k e below =
    let (here, rest) = if_true (test bound) (tested test bound) e in
    elim (dec_lt k bound) [
      | yes less ↦ tested_lem test bound k rest less
      | no more ↦ let last : k ≡ bound = omega arith in rw last here
    ]

unfoldable first_kept : ℕ → Bool
first_kept b = clamp_first b % 8 == 0 && (leb (clamp_first b) b && ltb b (clamp_first b + 8))

unfoldable last_kept : ℕ → Bool
last_kept b = leb 64 (clamp_last b) && (ltb (clamp_last b) 128 && clamp_last b % 64 == b % 64)

first_table : tested first_kept 256 ≡ true
unfolding tested first_kept clamp_first
first_table = refl

last_table : tested last_kept 256 ≡ true
unfolding tested last_kept clamp_last
last_table = refl

clamp_first_lem :
    (b : ℕ) → b < 256 → (clamp_first b % 8 ≡ 0) × (clamp_first b ≤ b) × (b < clamp_first b + 8)
unfolding first_kept
clamp_first_lem b h = let t = tested_lem first_kept 256 b first_table h in ground arith

clamp_last_lem :
    (b : ℕ) → b < 256 → (64 ≤ clamp_last b) × (clamp_last b < 128) × (clamp_last b % 64 ≡ b % 64)
unfolding last_kept
clamp_last_lem b h = let t = tested_lem last_kept 256 b last_table h in ground arith

get_or-set : (k : Bytes) (n v : ℕ) → n < length k → get_or (set k n v) n 0 ≡ v
get_or-set [] n v h = absurd (omega arith)
get_or-set (b ∷ k) zero v h = refl
get_or-set (b ∷ k) (suc n) v h = get_or-set k n v (omega arith)

get_or-set_other : (k : Bytes) (n i v : ℕ) → i ≢ n → get_or (set k n v) i 0 ≡ get_or k i 0
get_or-set_other [] n i v h = refl
get_or-set_other (b ∷ k) zero zero v h = absurd (h refl)
get_or-set_other (b ∷ k) zero (suc i) v h = refl
get_or-set_other (b ∷ k) (suc n) zero v h = refl
get_or-set_other (b ∷ k) (suc n) (suc i) v h = get_or-set_other k n i v (λ e. h (ap suc e))

get_or-All : (k : Bytes) (i : ℕ) → All (λ b. b < 256) k → get_or k i 0 < 256
get_or-All [] i h = omega arith
get_or-All (b ∷ k) zero (h, hs) = h
get_or-All (b ∷ k) (suc i) (h, hs) = get_or-All k i hs

-- A clamped key: a multiple of 8 below 2 ^ 255 with bit 254 set, which differs from the random
-- bytes in no other bit.
pub record IsClamped (random k : Bytes) : Type 0 where
  pub size : length k ≡ 32
  pub low : get_or k 0 0 % 8 ≡ 0
  pub low_kept : (get_or k 0 0 ≤ get_or random 0 0) × (get_or random 0 0 < get_or k 0 0 + 8)
  pub high : (64 ≤ get_or k 31 0) × (get_or k 31 0 < 128)
  pub high_kept : get_or k 31 0 % 64 ≡ get_or random 31 0 % 64
  pub others : (i : ℕ) → i ≢ 0 → i ≢ 31 → get_or k i 0 ≡ get_or random i 0

-- Of 32 random bytes, NewPrivateKey makes a key of 32 bytes whose number is a multiple of 8 with
-- bit 255 clear and bit 254 set, and it keeps all other bits.
pub new_private_key-IsClamped :
    (random k : Bytes)
    → length random ≡ 32
    → All (λ b. b < 256) random
    → new_private_key (some random) ≡ some k
    → IsClamped random k
unfolding new_private_key clamp
new_private_key-IsClamped random k n bytes h =
    let k1 : Bytes = set random 0 (clamp_first (get_or random 0 0)) in
    let n1 : length k1 ≡ 32 = length-set random 0 _ ∙ n in
    let last : ℕ = clamp_last (get_or k1 31 0) in
    let kept : get_or k1 31 0 ≡ get_or random 31 0 = get_or-set_other random 0 31 _ (omega arith) in
    let e : set k1 31 last ≡ k = cc in
    let first : get_or k 0 0 ≡ clamp_first (get_or random 0 0) =
      rw (sym e)
        (get_or-set_other k1 31 0 last (omega arith) ∙ get_or-set random 0 _ (omega arith)) in
    let final : get_or k 31 0 ≡ clamp_last (get_or random 31 0) =
      rw (sym e) (get_or-set k1 31 last (omega arith) ∙ ap clamp_last kept) in
    let (f1, f2, f3) = clamp_first_lem (get_or random 0 0) (get_or-All random 0 bytes) in
    let (l1, l2, l3) = clamp_last_lem (get_or random 31 0) (get_or-All random 31 bytes) in
    record {
      size = rw (sym e) (length-set k1 31 last ∙ n1);
      low = rw first f1;
      low_kept = rw first (f2, f3);
      high = rw final (l1, l2);
      high_kept = rw final l3;
      others =
          λ i z t. rw (sym e) (get_or-set_other k1 31 i last t ∙ get_or-set_other random 0 i _ z);
    }
