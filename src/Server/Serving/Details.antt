-- ===== src/Server/Serving/Details.antt =====
-- `ConnectionDetails.UnmarshalCapnproto` of server/cfd/register.go. Cap'n Proto's structs and the
-- parser of UUIDs are parameters.
use cftun.Common.{ℕ, ◌≡◌, refl, ap, sym, ◌∙◌, Bool, Option, none, some, String, Bytes}
use mathlib.Core.Option.{some-injective}
use cftun.Server.Serving.{ConnectionDetails}

-- What a pointer holds, read as data and as text.
pub record Pointer : Type 0 where
  pub data_of : Bytes
  pub text_of : String

-- A struct: its pointers, of which one that cannot be read is an error, and its bits.
pub record Struct : Type 0 where
  pub ptr : ℕ → Option Pointer
  pub bit : ℕ → Bool

infixl 5 ◌>>=◌
abbrev ◌>>=◌ : {A B : Type 0} → Option A → (A → Option B) → Option B
none >>= f = none
some a >>= f = f a

-- `none` is an error.
unfoldable pub unmarshal_capnproto : (Bytes → Option Bytes) → Struct → Option ConnectionDetails
unmarshal_capnproto from_bytes s = do
  uuid_ptr ← s.ptr 0
  uuid ← from_bytes uuid_ptr.data_of
  loc_ptr ← s.ptr 1
  some record { uuid = uuid; location = loc_ptr.text_of; tunnel_is_remotely_managed = s.bit 0 }

>>=-eq-some :
    {A B : Type 0} (m : Option A) (f : A → Option B) {b : B}
    → (m >>= f) ≡ some b
    → (a : A) × (m ≡ some a) × (f a ≡ some b)
>>=-eq-some (some a) f h = (a, refl, h)
>>=-eq-some none f h = cc

-- The pointers of the two fields and the UUID are read.
Found : (Bytes → Option Bytes) → Struct → ConnectionDetails → Type 0
Found from_bytes s d =
    (p : Pointer) × (q : Pointer) × (s.ptr 0 ≡ some p)
    × (s.ptr 1 ≡ some q)
    × (from_bytes p.data_of ≡ some d.uuid)
    × (d.location ≡ q.text_of)
    × (d.tunnel_is_remotely_managed ≡ s.bit 0)

-- Details that are read are those of the struct, in every field.
unmarshal_capnproto-Found :
    (from_bytes : Bytes → Option Bytes) (s : Struct) (d : ConnectionDetails)
    → unmarshal_capnproto from_bytes s ≡ some d
    → Found from_bytes s d
unfolding unmarshal_capnproto Found
unmarshal_capnproto-Found from_bytes s d h =
    let (p, hp, rest) = >>=-eq-some (s.ptr 0) _ h in
    let (u, hu, loc) = >>=-eq-some (from_bytes p.data_of) _ rest in
    let (q, hq, last) = >>=-eq-some (s.ptr 1) _ loc in
    let e = some-injective _ _ last in
    (
      p,
      q,
      hp,
      hq,
      hu ∙ ap (λ x. some x.uuid) e,
      sym (ap (λ x. x.location) e),
      sym (ap (λ x. x.tunnel_is_remotely_managed) e),
    )
