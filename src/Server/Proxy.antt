-- ===== src/Server/Proxy.antt =====
-- server/cfd/connection.go, `Proxy` and the dialing of an origin with retries. The two dialers are
-- parameters: what each call answers.
pub mod Retry
pub mod Family
use Prim.Native.Char.{code}
use Prim.Native.String
use cftun.Common.{
  ℕ, zero, suc, ◌+◌, Bool, true, false, not, ◌&&◌, ◌||◌, Option, none, some, String, ◌==◌,
  if◌then◌else◌, Result, ok, err,
}

pub record Proxy : Type 0 where
  pub proxy4 : Bool
  pub proxy6 : Bool

-- The configured `DialFunc`, or `net.Dial`.
pub data Dialer : Type 0 where
  dial_func net_dial : Dialer

-- `address[0] == '['`; an empty address is an index out of range.
unfoldable pub is_ipv6 : String → Option Bool
is_ipv6 String.[] = none
is_ipv6 (String.◌∷◌ c s) = some (code c == b'[')

-- Which dialer `Dial` calls; `none` is a panic.
unfoldable pub choose : Proxy → String → Option Dialer
choose d address = elim (is_ipv6 address) [
  | none ↦ none
  | some v6 ↦ some (if v6 && d.proxy6 || not v6 && d.proxy4 then dial_func else net_dial)
]

-- A `net.Error` with its `Timeout()`, or another error.
pub data DialError : Type 0 where
  net_error : Bool → DialError
  plain_error : DialError

unfoldable pub is_retryable_error : DialError → Bool
is_retryable_error (net_error timeout) = timeout
is_retryable_error plain_error = false

-- `retries` carries the last error, which is nil where no attempt was made.
pub data RetryError : Type 0 where
  non_retryable : DialError → RetryError
  retries : Option DialError → RetryError

module _ {C : Type 0} where
  -- The loop from attempt `i` with `left` attempts to go; the count is of the attempts made.
  unfoldable pub retry_from :
      (ℕ → Result DialError C) → ℕ → ℕ → Option DialError → Result RetryError C × ℕ
  retry_from attempt zero i last = (err (retries last), i)
  retry_from attempt (suc left) i last =
      let again = λ (e : DialError). retry_from attempt left (i + 1) (some e) in
      elim (attempt i) [
        | ok c ↦ (ok c, i + 1)
        | err e ↦ if is_retryable_error e then again e else (err (non_retryable e), i + 1)
      ]

  unfoldable pub dial_with_retry : (ℕ → Result DialError C) → ℕ → Result RetryError C × ℕ
  dial_with_retry attempt max_retries = retry_from attempt max_retries 0 none
