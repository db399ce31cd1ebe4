-- ===== src/Server/Proxy/Retry.antt =====
-- `DialWithRetry` against a description of the first attempt that settles it.
use native.Mathlib.Decide.{dec_lt}
use cftun.Common.{
  ℕ, zero, suc, ◌+◌, ◌≤◌, ◌<◌, ◌≡◌, ◌≢◌, refl, true, false, Option, none, some, arith,
  if◌then◌else◌, Result, ok, err,
}
use cftun.Server.Proxy.{
  DialError, net_error, plain_error, RetryError, non_retryable, retries, is_retryable_error,
  retry_from, dial_with_retry,
}

module _ {C : Type 0} (attempt : ℕ → Result DialError C) where
  -- The attempt times out, so that the loop goes on.
  abbrev pub TimesOut : ℕ → Type 0
  TimesOut k = attempt k ≡ err (net_error true)

  -- Attempt `k` is one of those from `i` on that are allowed, it is the last one made, and all
  -- before it timed out.
  abbrev pub Decides : ℕ → ℕ → ℕ → ℕ → Type 0
  Decides left i n k =
      (i ≤ k) × (k < i + left) × (n ≡ k + 1) × ((j : ℕ) → i ≤ j → j < k → TimesOut j)

  -- What a result says of the attempts from `i` on, `left` of which are allowed.
  abbrev pub Settles : ℕ → ℕ → Result RetryError C × ℕ → Type 0
  Settles left i (ok c, n) = (k : ℕ) × Decides left i n k × (attempt k ≡ ok c)
  Settles left i (err (non_retryable e), n) =
      (k : ℕ) × Decides left i n k × (attempt k ≡ err e) × (e ≢ net_error true)
  Settles left i (err (retries last), n) =
      (n ≡ i + left) × ((j : ℕ) → i ≤ j → j < i + left → TimesOut j)

  earlier :
      (i k : ℕ)
      → TimesOut i
      → ((j : ℕ) → i + 1 ≤ j → j < k → TimesOut j)
      → (j : ℕ) → i ≤ j
      → j < k
      → TimesOut j
  earlier i k now later j a b = elim (dec_lt i j) [
    | yes h ↦ later j (omega arith) b
    | no h ↦ let e : j ≡ i = omega arith in rw e now
  ]

  -- One more timeout in front.
  Settles-suc :
      (left i : ℕ) (r : Result RetryError C × ℕ)
      → TimesOut i
      → Settles left (i + 1) r
      → Settles (suc left) i r
  Settles-suc left i (ok c, n) now (k, (a, b, e, t), h) =
      (k, (omega arith, omega arith, e, earlier i k now t), h)
  Settles-suc left i (err (non_retryable x), n) now (k, (a, b, e, t), h, p) =
      (k, (omega arith, omega arith, e, earlier i k now t), h, p)
  Settles-suc left i (err (retries last), n) now (e, t) =
      (omega arith, λ j a b. earlier i (i + suc left) now (λ j c d. t j c (omega arith)) j a b)

  -- What the attempt `i` decides.
  round :
      (left i : ℕ) (a : Result DialError C)
      → attempt i ≡ a
      → ((last : Option DialError) → Settles left (i + 1) (retry_from attempt left (i + 1) last))
      → Settles (suc left) i (elim a [
        | ok c ↦ (ok c, i + 1)
        | err e ↦
            if is_retryable_error e
            then retry_from attempt left (i + 1) (some e)
            else (err (non_retryable e), i + 1)
      ])
  unfolding is_retryable_error
  round left i (ok c) h rest =
      (i, (omega arith, omega arith, refl, λ j p q. absurd (omega arith)), h)
  round left i (err (net_error true)) h rest = Settles-suc left i _ h (rest (some (net_error true)))
  round left i (err (net_error false)) h rest =
      (i, (omega arith, omega arith, refl, λ j p q. absurd (omega arith)), h, λ e. cc)
  round left i (err plain_error) h rest =
      (i, (omega arith, omega arith, refl, λ j p q. absurd (omega arith)), h, λ e. cc)

  retry_from-Settles :
      (left i : ℕ) (last : Option DialError) → Settles left i (retry_from attempt left i last)
  unfolding retry_from
  retry_from-Settles zero i last = (omega arith, λ j p q. absurd (omega arith))
  retry_from-Settles (suc left) i last =
      round left i (attempt i) refl (λ l. retry_from-Settles left (i + 1) l)

  -- Whatever the attempts come to, dialing with retries returns the connection of the first attempt
  -- that succeeds when all before it timed out, the first error that is no timeout likewise, and
  -- otherwise fails after exactly the allowed attempts, all of which timed out.
  pub dial_with_retry-Settles :
      (max_retries : ℕ) → Settles max_retries 0 (dial_with_retry attempt max_retries)
  unfolding dial_with_retry
  dial_with_retry-Settles max_retries = retry_from-Settles max_retries 0 none
