-- ===== src/Common/Lists.antt =====
-- Lists measured and indexed by native numbers, under the library's names, and Go's `copy`.
use Prim.Native.Nat.{ℕ, zero, suc, ◌+◌, ◌-◌, ◌≤◌, min}
use mathlib.Core.Path.{◌≡◌, refl, ap, sym}
use mathlib.Core.List.{List, [], ◌∷◌, ◌++◌, append_assoc, flatten}
use mathlib.Core.Option.{Option, none, some}
use native.Mathlib.Nat.{suc-add}
use mathlib.Core.Bool.{Bool}
use native.Mathlib.Omega.{arith}
use cftun.Common.Tests.{if◌then◌else◌}

-- A byte slice holds numbers below 256.
abbrev pub Bytes : Type 0
Bytes = List ℕ

-- A predicate at every element.
abbrev pub All {ℓ κ} : {A : Type ℓ} → (A → Type κ) → List A → Type κ
All P [] = Unit
All P (x ∷ xs) = P x × All P xs

module _ {ℓ} {A : Type ℓ} where
  abbrev pub length : List A → ℕ
  length [] = 0
  length (x ∷ xs) = suc (length xs)

  abbrev pub get_elem? : List A → ℕ → Option A
  get_elem? [] i = none
  get_elem? (x ∷ xs) zero = some x
  get_elem? (x ∷ xs) (suc i) = get_elem? xs i

  abbrev pub get_or : List A → ℕ → A → A
  get_or [] i d = d
  get_or (x ∷ xs) zero d = x
  get_or (x ∷ xs) (suc i) d = get_or xs i d

  -- A write out of bounds changes nothing.
  abbrev pub set : List A → ℕ → A → List A
  set [] i v = []
  set (x ∷ xs) zero v = v ∷ xs
  set (x ∷ xs) (suc i) v = x ∷ set xs i v

  abbrev pub take : ℕ → List A → List A
  take zero xs = []
  take (suc n) [] = []
  take (suc n) (x ∷ xs) = x ∷ take n xs

  abbrev pub drop : ℕ → List A → List A
  drop zero xs = xs
  drop (suc n) [] = []
  drop (suc n) (x ∷ xs) = drop n xs

  abbrev pub replicate : ℕ → A → List A
  replicate zero a = []
  replicate (suc n) a = a ∷ replicate n a

  -- `copy(dst[i:], src)`: what `dst` holds afterwards.
  abbrev pub copy_at : ℕ → List A → List A → List A
  copy_at i [] src = []
  copy_at zero (d ∷ dst) [] = d ∷ dst
  copy_at zero (d ∷ dst) (s ∷ src) = s ∷ copy_at zero dst src
  copy_at (suc i) (d ∷ dst) src = d ∷ copy_at i dst src

  pub length-append : (xs ys : List A) → length (xs ++ ys) ≡ length xs + length ys
  length-append [] ys = omega arith
  length-append (x ∷ xs) ys = omega (arith, length-append xs ys)

  pub length-take : (n : ℕ) (xs : List A) → length (take n xs) ≡ min n (length xs)
  length-take zero xs = omega arith
  length-take (suc n) [] = omega arith
  length-take (suc n) (x ∷ xs) = omega (arith, length-take n xs)

  pub length-drop : (n : ℕ) (xs : List A) → length (drop n xs) ≡ length xs - n
  length-drop zero xs = omega arith
  length-drop (suc n) [] = omega arith
  length-drop (suc n) (x ∷ xs) = omega (arith, length-drop n xs)

  pub length-replicate : (n : ℕ) (a : A) → length (replicate n a) ≡ n
  length-replicate zero a = refl
  length-replicate (suc n) a = ap suc (length-replicate n a)

  pub length-set : (xs : List A) (i : ℕ) (v : A) → length (set xs i v) ≡ length xs
  length-set [] i v = refl
  length-set (x ∷ xs) zero v = refl
  length-set (x ∷ xs) (suc i) v = ap suc (length-set xs i v)

  pub length-copy_at : (i : ℕ) (dst src : List A) → length (copy_at i dst src) ≡ length dst
  length-copy_at i [] src = refl
  length-copy_at zero (d ∷ dst) [] = refl
  length-copy_at zero (d ∷ dst) (s ∷ src) = ap suc (length-copy_at zero dst src)
  length-copy_at (suc i) (d ∷ dst) src = ap suc (length-copy_at i dst src)

  pub take-append-drop : (n : ℕ) (xs : List A) → take n xs ++ drop n xs ≡ xs
  take-append-drop zero xs = refl
  take-append-drop (suc n) [] = refl
  take-append-drop (suc n) (x ∷ xs) = rw (take-append-drop n xs)

  pub take-eq_self : (n : ℕ) (xs : List A) → length xs ≤ n → take n xs ≡ xs
  take-eq_self zero [] h = refl
  take-eq_self zero (x ∷ xs) h = absurd (omega arith)
  take-eq_self (suc n) [] h = refl
  take-eq_self (suc n) (x ∷ xs) h = rw (take-eq_self n xs (omega arith))

  pub drop-eq-nil : (n : ℕ) (xs : List A) → length xs ≤ n → drop n xs ≡ []
  drop-eq-nil zero [] h = refl
  drop-eq-nil zero (x ∷ xs) h = absurd (omega arith)
  drop-eq-nil (suc n) [] h = refl
  drop-eq-nil (suc n) (x ∷ xs) h = drop-eq-nil n xs (omega arith)

module _ {ℓ} {A : Type ℓ} where
  -- Reading at the join of two lists.
  pub take-append_left : (xs ys : List A) → take (length xs) (xs ++ ys) ≡ xs
  take-append_left [] ys = refl
  take-append_left (x ∷ xs) ys = rw (take-append_left xs ys)

  pub drop-append_left : (xs ys : List A) → drop (length xs) (xs ++ ys) ≡ ys
  drop-append_left [] ys = refl
  drop-append_left (x ∷ xs) ys = drop-append_left xs ys

  -- Copying into a slice that is longer than the source.
  pub copy_at-replicate :
      (a : A) (src rest : List A)
      → copy_at zero (replicate (length src) a ++ rest) src ≡ src ++ rest
  copy_at-replicate a [] [] = refl
  copy_at-replicate a [] (r ∷ rest) = refl
  copy_at-replicate a (s ∷ src) rest = rw (copy_at-replicate a src rest)

  pub copy_at-replicate_self :
      (a : A) (src : List A) → copy_at zero (replicate (length src) a) src ≡ src
  copy_at-replicate_self a [] = refl
  copy_at-replicate_self a (s ∷ src) = rw (copy_at-replicate_self a src)

  pub replicate-add : (m n : ℕ) (a : A) → replicate (m + n) a ≡ replicate m a ++ replicate n a
  replicate-add zero n a = ap (λ i. replicate i a) (omega arith)
  replicate-add (suc m) n a = rw (suc-add m n) (ap (λ xs. a ∷ xs) (replicate-add m n a))

-- Reading an append whose left part has a known length.
module _ {ℓ} {A : Type ℓ} where
  pub take-append_at : (n : ℕ) (xs ys : List A) → length xs ≡ n → take n (xs ++ ys) ≡ xs
  take-append_at n xs ys h = rw (← h) (take-append_left xs ys)

  pub drop-append_at :
      (n k : ℕ) (xs ys : List A) → length xs ≡ n → drop (n + k) (xs ++ ys) ≡ drop k ys
  drop-append_at zero k [] ys h = ap (λ i. drop i ys) (omega arith)
  drop-append_at zero k (x ∷ xs) ys h = absurd (omega arith)
  drop-append_at (suc n) k [] ys h = absurd (omega arith)
  drop-append_at (suc n) k (x ∷ xs) ys h = rw (suc-add n k) (drop-append_at n k xs ys (omega arith))

  pub get_or-append_at :
      (n k : ℕ) (xs ys : List A) (d : A)
      → length xs ≡ n
      → get_or (xs ++ ys) (n + k) d ≡ get_or ys k d
  get_or-append_at zero k [] ys d h = ap (λ i. get_or ys i d) (omega arith)
  get_or-append_at zero k (x ∷ xs) ys d h = absurd (omega arith)
  get_or-append_at (suc n) k [] ys d h = absurd (omega arith)
  get_or-append_at (suc n) k (x ∷ xs) ys d h =
      rw (suc-add n k) (get_or-append_at n k xs ys d (omega arith))

  -- Writing behind it.
  pub set-append_at :
      (n k : ℕ) (xs ys : List A) (v : A)
      → length xs ≡ n
      → set (xs ++ ys) (n + k) v ≡ xs ++ set ys k v
  set-append_at zero k [] ys v h = ap (λ i. set ys i v) (omega arith)
  set-append_at zero k (x ∷ xs) ys v h = absurd (omega arith)
  set-append_at (suc n) k [] ys v h = absurd (omega arith)
  set-append_at (suc n) k (x ∷ xs) ys v h =
      rw (suc-add n k) (ap (λ zs. x ∷ zs) (set-append_at n k xs ys v (omega arith)))

  pub copy_at-append_at :
      (n : ℕ) (xs ys src : List A)
      → length xs ≡ n
      → copy_at n (xs ++ ys) src ≡ xs ++ copy_at 0 ys src
  copy_at-append_at zero [] ys src h = refl
  copy_at-append_at zero (x ∷ xs) ys src h = absurd (omega arith)
  copy_at-append_at (suc n) [] ys src h = absurd (omega arith)
  copy_at-append_at (suc n) (x ∷ xs) ys src h =
      ap (λ zs. x ∷ zs) (copy_at-append_at n xs ys src (omega arith))

-- A predicate at every element of a suffix.
pub All-drop {ℓ κ} :
    {A : Type ℓ} (P : A → Type κ) (n : ℕ) (xs : List A) → All P xs → All P (drop n xs)
All-drop P zero xs h = h
All-drop P (suc n) [] h = tt
All-drop P (suc n) (x ∷ xs) h = All-drop P n xs h.1

pub All-append {ℓ κ} :
    {A : Type ℓ} (P : A → Type κ) (xs ys : List A) → All P xs → All P ys → All P (xs ++ ys)
All-append P [] ys h k = k
All-append P (x ∷ xs) ys h k = (h.0, All-append P xs ys h.1 k)

-- How many elements pass a test.
abbrev pub count {ℓ} : {A : Type ℓ} → (A → Bool) → List A → ℕ
count f [] = 0
count f (x ∷ xs) = (if f x then 1 else 0) + count f xs

pub count-append {ℓ} :
    {A : Type ℓ} (f : A → Bool) (xs ys : List A) → count f (xs ++ ys) ≡ count f xs + count f ys
count-append f [] ys = omega arith
count-append f (x ∷ xs) ys = let h = count-append f xs ys in omega arith

pub flatten-append {ℓ} :
    {A : Type ℓ} (xs ys : List (List A)) → flatten (xs ++ ys) ≡ flatten xs ++ flatten ys
unfolding flatten
flatten-append [] ys = refl
flatten-append (x ∷ xs) ys =
    rw (flatten-append xs ys) (sym (append_assoc x (flatten xs) (flatten ys)))
