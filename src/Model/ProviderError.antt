-- ===== src/Model/ProviderError.antt =====
-- internal/model/provider_error.go: which errors of a provider may be tried again, and the delay
-- that the service asks for. A delay is a time.Duration: an int64 of nanoseconds.
pub mod RetryAfter
use notch.Prelude.{
  ℕ, ◌*◌, Bool, true, false, ◌&&◌, ◌||◌, Option, none, some, List, [], ◌∷◌, ltb, ◌==◌,
  if◌then◌else◌, length, any,
}
use notch.Prelude.Int.{ℤ, pos, negsuc, ltb_ℤ, pos_part}
use notch.Go.Bytes.{Bytes, codes}
use notch.Go.Space.{trim_space}
use notch.Go.Strings.{contains}
use notch.Go.Int64.{signed, atoi}

pub record ProviderError : Type 0 where
  pub message : Bytes
  pub status_code : ℕ
  pub code : Bytes
  pub retry_after : ℤ

-- What errors.As finds in the chain of an error, and its text. A network error is the answers of its
-- Timeout and its Temporary. No *ProviderError in a chain is nil: RetryInfo would panic there.
pub record GoError : Type 0 where
  pub provider_error : Option ProviderError
  pub net_error : Option (Bool × Bool)
  pub text : Bytes

abbrev pub retryable_codes : List ℕ
retryable_codes = 408 ∷ 409 ∷ 425 ∷ 429 ∷ 500 ∷ 502 ∷ 503 ∷ 504 ∷ 507 ∷ 520 ∷ []

-- strings.ToLower is `to_lower`.
unfoldable pub retryable : (Bytes → Bytes) → Option ProviderError → Bool
unfolding contains trim_space
retryable to_lower none = false
retryable to_lower (some e) =
    let code = to_lower (trim_space e.code) in
    any (λ status. status == e.status_code) retryable_codes
    || contains code (codes "overload")
    || contains code (codes "rate_limit")
    || contains code (codes "temporarily_unavailable")
    || contains code (codes "server_error")

unfoldable pub stream_reset : Bytes → Bool
unfolding contains
stream_reset message =
    contains message (codes "stream error: stream ID ")
    && contains message (codes "; INTERNAL_ERROR; received from peer")

unfoldable pub net_retry_info : Option (Bool × Bool) → Bytes → Bool × ℤ
unfolding stream_reset
net_retry_info (some (timeout, temporary)) message = (timeout || temporary, pos 0)
net_retry_info none message = (stream_reset message, pos 0)

unfoldable pub provider_retry_info : (Bytes → Bytes) → Option ProviderError → GoError → Bool × ℤ
unfolding retryable net_retry_info
provider_retry_info to_lower (some e) err = (retryable to_lower (some e), e.retry_after)
provider_retry_info to_lower none err = net_retry_info err.net_error err.text

unfoldable pub retry_info : (Bytes → Bytes) → GoError → Bool × ℤ
unfolding provider_retry_info
retry_info to_lower err = provider_retry_info to_lower err.provider_error err

abbrev pub second : ℕ
second = 1000000000

-- `date` is when.Sub(now) for an HTTP date that http.ParseTime reads.
unfoldable pub parse_date : Option ℤ → ℤ
parse_date none = pos 0
parse_date (some wait) = if ltb_ℤ (pos 0) wait then wait else pos 0

-- A number of seconds is multiplied in an int64.
unfoldable pub seconds_or_date : (Bytes → Option ℤ) → Bytes → Option ℤ → ℤ
unfolding parse_date
seconds_or_date date v (some seconds) =
    if ltb_ℤ (pos 0) seconds then signed (pos_part seconds * second) else pos 0
seconds_or_date date v none = parse_date (date v)

unfoldable pub parse_retry_after : (Bytes → Option ℤ) → Bytes → ℤ
unfolding seconds_or_date trim_space atoi
parse_retry_after date header =
    let v = trim_space header in if length v == 0 then pos 0 else seconds_or_date date v (atoi v)
