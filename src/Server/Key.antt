-- ===== src/Server/Key.antt =====
-- server/key.go: Curve25519 keys. The random bytes and the base64 text are parameters.
pub mod Clamp
use Prim.Native.Nat.{bit_and, bit_or}
use cftun.Common.{
  ℕ, Bool, true, ◌&&◌, ◌==◌, Option, none, some, String, List, [], ◌∷◌, Bytes, set, get_or,
}
use cftun.Common.Codec.{Base64}

unfoldable pub string : Base64 → Bytes → String
string base64 k = base64.encode k

-- A comparison with 32 zeros.
unfoldable pub is_zero : Bytes → Bool
is_zero [] = true
is_zero (b ∷ k) = b == 0 && is_zero k

-- `none` is an error of the random source.
unfoldable pub new_preshared_key : Option Bytes → Option Bytes
new_preshared_key random = random

-- The two statements on the bytes of `NewPrivateKey`.
unfoldable pub clamp_first : ℕ → ℕ
clamp_first b = bit_and b 248

unfoldable pub clamp_last : ℕ → ℕ
clamp_last b = bit_or (bit_and b 127) 64

unfoldable pub clamp : Bytes → Bytes
unfolding clamp_first clamp_last
clamp k = let k1 = set k 0 (clamp_first (get_or k 0 0)) in set k1 31 (clamp_last (get_or k1 31 0))

-- `none` is a nil key.
unfoldable pub new_private_key : Option Bytes → Option Bytes
unfolding new_preshared_key clamp
new_private_key none = none
new_private_key (some k) = some (clamp k)
