-- ===== src/Client/Buffer/Waste.antt =====
-- What a buffer of the allocator holds, and what is put back.
use native.Mathlib.Nat.{one-le-pow, two-pow-succ, pow-le-pow_right}
use native.Mathlib.Decide.{dec_lt}
use cftun.Common.{
  ℕ, zero, suc, ◌+◌, ◌*◌, ◌/◌, ◌%◌, ◌^◌, ◌≤◌, ◌<◌, ◌≡◌, ◌↔◌, ◌⊎◌, refl, sym, ◌∙◌, ap, inl, inr,
  Bool, true, false, List, [], ◌∷◌, All, arith, ◌==◌, ltb, leb, Bool-cases,
}
use cftun.Common.Int.{ℤ, pos, negsuc}
use cftun.Client.Buffer.{
  Buffer, Pool, pool_get, pool_put, len_from, len32, msb, Allocator, classes, Got, nil, panicked,
  got, get_class, get, put, update,
}

len_zero : (fuel : ℕ) → len_from fuel 0 ≡ 0
unfolding len_from
len_zero zero = refl
len_zero (suc fuel) = refl

-- `n` has `k + 1` binary digits.
abbrev Digits : ℕ → ℕ → Type 0
Digits n k = (2 ^ k ≤ n) × (n < 2 ^ suc k)

len_step : (fuel n : ℕ) → 0 < n → len_from (suc fuel) n ≡ suc (len_from fuel (n / 2))
unfolding len_from
len_step fuel n h = ground arith

len-Digits : (fuel n : ℕ) → 0 < n → n < 2 ^ fuel → (k : ℕ) × (len_from fuel n ≡ suc k) × Digits n k
len-Digits zero n h lt = absurd (omega arith)
len-Digits (suc fuel) n h lt = elim (dec_lt 0 (n / 2)) [
  | yes more ↦
      let (k, e, (low, high)) = len-Digits fuel (n / 2) more (omega (arith, two-pow-succ fuel)) in
      (
        suc k,
        len_step fuel n h ∙ ap suc e,
        (omega (arith, two-pow-succ k), omega (arith, two-pow-succ (suc k))),
      )
  | no last ↦
      let one : n ≡ 1 = omega arith in
      let half : n / 2 ≡ 0 = omega arith in
      (
        0,
        len_step fuel n h ∙ ap suc (ap (len_from fuel) half ∙ len_zero fuel),
        (omega arith, omega arith),
      )
]

digits_small : (n k : ℕ) → n ≤ 65536 → 2 ^ k ≤ n → k ≤ 16
digits_small n k h low = elim (dec_lt 16 k) [
  | yes big ↦ absurd (omega (arith, pow-le-pow_right {n = 2} (omega arith) {i = 17} {j = k} big))
  | no small ↦ omega arith
]

msb_of : (size k : ℕ) → size ≤ 65536 → len32 size ≡ suc k → k ≤ 16 → msb size ≡ k
unfolding msb
msb_of size k le e small =
    let same : size % 2 ^ 32 ≡ size = omega arith in rw (same, e) (omega arith)

msb-Digits :
    (size : ℕ) → 0 < size → size ≤ 65536 → (k : ℕ) × (msb size ≡ k) × (k ≤ 16) × Digits size k
msb-Digits size h le =
    let (k, e, (low, high)) = len-Digits 32 size h (omega arith) in
    let small = digits_small size k le low in (k, msb_of size k le e small, small, (low, high))

class_above : (size k : ℕ) → size ≤ 65536 → k ≤ 16 → 2 ^ k < size → k + 1 ≤ 16
class_above size k le small low = elim (dec_lt k 16) [
  | yes less ↦ omega arith
  | no most ↦ let e : k ≡ 16 = omega arith in absurd (omega (arith, ap (λ j. 2 ^ j) e))
]

-- The buffers of a pool have the capacity of its class.
abbrev pub Holds : ℕ → Pool → Type 0
Holds c p = (p.make ≡ c) × All (λ b. b.cap ≡ c) p.free

abbrev pub IsStocked : Allocator → Type 0
IsStocked alloc = (k : ℕ) → Holds (2 ^ k) (alloc k)

-- What a size is answered.
abbrev pub Fits : ℕ → Got → Type 0
Fits size nil = (size ≡ 0) ⊎ (65536 < size)
Fits size panicked = ⊥
Fits size (got b) =
    (1 ≤ size) × (size ≤ 65536) × (b.len ≡ size) × (size ≤ b.cap) × (b.cap < 2 * size)

pool_get-Holds :
    (c : ℕ) (kept : Bool) (p : Pool)
    → Holds c p
    → Holds c (pool_get kept p).0 × ((pool_get kept p).1.cap ≡ c)
unfolding pool_get
pool_get-Holds c kept p h = go kept p.free h.1
  where
    go :
        (kept : Bool) (free : List Buffer)
        → All (λ b. b.cap ≡ c) free
        → Holds c (pool_get kept (record p { free = free })).0
          × ((pool_get kept (record p { free = free })).1.cap ≡ c)
    go false free a = ((h.0, a), h.0)
    go true [] a = ((h.0, a), h.0)
    go true (b ∷ rest) a = ((h.0, a.1), a.0)

update-IsStocked :
    (alloc : Allocator) (b : ℕ) (p : Pool)
    → IsStocked alloc
    → Holds (2 ^ b) p
    → IsStocked (update alloc b p)
update-IsStocked alloc b p s h k = elim (Bool-cases (k == b)) [
  | inl same ↦ let e : k ≡ b = ground arith in rw (same, e) h
  | inr other ↦ rw other (s k)
]

class-Fits :
    (kept : Bool) (b size : ℕ) (alloc : Allocator)
    → IsStocked alloc
    → b ≤ 16
    → 1 ≤ size
    → size ≤ 65536
    → size ≤ 2 ^ b
    → 2 ^ b < 2 * size
    → IsStocked (get_class kept b size alloc).0 × Fits size (get_class kept b size alloc).1
unfolding get_class
class-Fits kept b size alloc s small nonzero max fits tight =
    let (held, cap) = pool_get-Holds (2 ^ b) kept (alloc b) (s b) in
    let room : leb size (pool_get kept (alloc b)).1.cap ≡ true = ground (arith, cap) in
    let known : ltb b classes ≡ true = ground arith in
    rw (known, room, get_class)
      (
        update-IsStocked alloc b _ s held,
        (nonzero, max, refl, omega (arith, cap), omega (arith, cap)),
      )

-- Sizes that are no less than 0.
get_pos-Fits :
    (kept : Bool) (size : ℕ) (alloc : Allocator)
    → IsStocked alloc
    → IsStocked (get kept (pos size) alloc).0 × Fits size (get kept (pos size) alloc).1
unfolding get
get_pos-Fits kept size alloc s = elim (dec_lt 65536 size) [
  | yes big ↦
      let refused : get kept (pos size) alloc ≡ (alloc, nil) = ground arith in
      rw refused (s, inr big)
  | no fits ↦ elim (dec_lt 0 size) [
    | no none ↦
        let refused : get kept (pos size) alloc ≡ (alloc, nil) = ground arith in
        rw refused (s, inl (omega arith))
    | yes nonzero ↦
        let (k, e, small, (low, high)) = msb-Digits size nonzero (omega arith) in
        let double = two-pow-succ k in
        elim (Bool-cases (size == 2 ^ k)) [
          | inl whole ↦
              let exact : get kept (pos size) alloc ≡ get_class kept k size alloc =
                ground (arith, e) in
              rw exact (
                class-Fits kept k size alloc s small nonzero (omega arith) (ground arith)
                  (ground arith))
          | inr part ↦
              let above : get kept (pos size) alloc ≡ get_class kept (k + 1) size alloc =
                ground (arith, e) in
              rw above (
                class-Fits kept (k + 1) size alloc s
                  (class_above size k (omega arith) small (ground arith)) nonzero (omega arith)
                  (ground arith) (ground arith))
        ]
  ]
]

-- What `Get` gives for an int.
abbrev pub FitsInt : ℤ → Got → Type 0
FitsInt (pos size) r = Fits size r
FitsInt (negsuc n) r = r ≡ nil

-- A size from 1 to 65536 gets a buffer of that length whose capacity is less than twice the size,
-- and any other size, negative or not, nil; no index is out of range, and the size classes stay as
-- they were made.
pub get-Fits :
    (kept : Bool) (size : ℤ) (alloc : Allocator)
    → IsStocked alloc
    → IsStocked (get kept size alloc).0 × FitsInt size (get kept size alloc).1
unfolding get
get-Fits kept (pos size) alloc s = get_pos-Fits kept size alloc s
get-Fits kept (negsuc n) alloc s = (s, refl)

same-Digits : (j k : ℕ) → Digits (2 ^ k) j → j ≡ k
same-Digits j k (low, high) = elim (dec_lt j k) [
  | yes less ↦
      absurd (omega (arith, pow-le-pow_right {n = 2} (omega arith) {i = suc j} {j = k} less))
  | no most ↦ elim (dec_lt k j) [
    | yes more ↦ absurd (
        omega (
          arith,
          two-pow-succ k,
          one-le-pow k 2 (omega arith),
          pow-le-pow_right {n = 2} (omega arith) {i = suc k} {j = j} more,
        ))
    | no least ↦ omega arith
  ]
]

other_class : (cap k j : ℕ) → Digits cap k → cap ≡ 2 ^ j → (cap == 2 ^ k) ≡ false → ⊥
other_class cap k j digits e part =
    let same : k ≡ j = same-Digits k j (rw e at digits) in
    let whole : cap ≡ 2 ^ k = e ∙ ap (λ i. 2 ^ i) (sym same) in ground (arith, whole, part)

-- A buffer is taken back exactly when its capacity is one of the size classes from 1 to 65536, and
-- the size classes stay as they were made.
pub put-IsStocked :
    (buf : Buffer) (alloc : Allocator)
    → IsStocked alloc
    → IsStocked (put buf alloc).0
      × (((put buf alloc).1 ≡ true) ↔ ((k : ℕ) × (k ≤ 16) × (buf.cap ≡ 2 ^ k)))
unfolding put pool_put
put-IsStocked buf alloc s = elim (dec_lt 65536 buf.cap) [
  | yes big ↦
      let refused : put buf alloc ≡ (alloc, false) = ground arith in
      rw refused (
        s,
        (
          (λ h. cc),
          λ w.
              absurd
                (omega (arith, w.2, pow-le-pow_right {n = 2} (omega arith) {i = w.0} {j = 16} w.1)),
        ),
      )
  | no fits ↦ elim (dec_lt 0 buf.cap) [
    | no none ↦
        let refused : put buf alloc ≡ (alloc, false) = ground arith in
        rw refused
          (s, ((λ h. cc), λ w. absurd (omega (arith, w.2, one-le-pow w.0 2 (omega arith)))))
    | yes nonzero ↦
        let (k, e, small, digits) = msb-Digits buf.cap nonzero (omega arith) in
        elim (Bool-cases (buf.cap == 2 ^ k)) [
          | inl whole ↦
              let taken : put buf alloc ≡ (update alloc k (pool_put buf (alloc k)), true) =
                ground (arith, e) in
              rw taken (
                update-IsStocked alloc k _ s ((s k).0, (ground arith, (s k).1)),
                ((λ t. (k, small, ground arith)), λ w. refl),
              )
          | inr part ↦
              let refused : put buf alloc ≡ (alloc, false) = ground (arith, e) in
              rw refused (s, ((λ h. cc), λ w. absurd (other_class buf.cap k w.0 digits w.2 part)))
        ]
  ]
]
