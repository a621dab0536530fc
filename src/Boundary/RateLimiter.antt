-- ===== src/Boundary/RateLimiter.antt =====
-- `FixedWindowRateLimiter` of src/http_boundary.rs. Times and durations are in nanoseconds; a
-- `HashMap` is the function of its lookups, and the lock around the state is held throughout.
pub mod Windows
pub mod Isolation
pub mod Bursts
pub mod Retry
use nowledge.Prelude.{
  ℕ, ◌≤◌, ◌+◌, ◌-◌, ◌*◌, ◌/◌, ◌%◌, ◌^◌, min, max, String, str_eq, Bool, true, false, Option, none,
  some, List, [], ◌∷◌, ltb, leb, if◌then◌else◌, Result, ok, err,
}
use nowledge.Boundary.Errors.{ApiError, too_many_requests}

abbrev pub nanos_per_second : ℕ
nanos_per_second = 1000000000

-- `RATE_LIMIT_WINDOW`, a minute.
abbrev pub rate_limit_window : ℕ
rate_limit_window = 60 * nanos_per_second

abbrev pub u64_max : ℕ
u64_max = 2 ^ 64 - 1

pub record RateWindow : Type 0 where
  pub started_at : ℕ
  pub requests : ℕ

pub record RateLimiterState : Type 0 where
  pub windows : String → Option RateWindow
  pub last_cleanup : ℕ

pub record FixedWindowRateLimiter : Type 0 where
  pub max_requests : ℕ
  pub window : ℕ

-- The limiter and the state that `with_window` gives it.
unfoldable pub with_window : ℕ → ℕ → ℕ → FixedWindowRateLimiter × RateLimiterState
with_window max_requests window now = (
  record { max_requests = max_requests; window = window },
  record { windows = λ key. none; last_cleanup = now },
)

unfoldable pub new : ℕ → ℕ → FixedWindowRateLimiter × RateLimiterState
unfolding with_window
new requests_per_minute now = with_window requests_per_minute rate_limit_window now

-- `now.checked_duration_since(earlier)`.
abbrev pub checked_duration_since : ℕ → ℕ → Option ℕ
checked_duration_since now earlier = if leb earlier now then some (now - earlier) else none

abbrev pub is_some_and : Option ℕ → (ℕ → Bool) → Bool
is_some_and none test = false
is_some_and (some n) test = test n

abbrev unwrap_or_default : Option ℕ → ℕ
unwrap_or_default none = 0
unwrap_or_default (some n) = n

-- The test of `windows.retain`.
unfoldable pub retained : FixedWindowRateLimiter → ℕ → Option RateWindow → Option RateWindow
retained limiter now none = none
retained limiter now (some entry) =
    if is_some_and (checked_duration_since now entry.started_at) (λ d. ltb d limiter.window)
    then some entry
    else none

unfoldable pub cleanup : FixedWindowRateLimiter → ℕ → RateLimiterState → RateLimiterState
unfolding retained
cleanup limiter now state =
    if is_some_and (checked_duration_since now state.last_cleanup) (λ d. leb limiter.window d)
    then record { windows = λ key. retained limiter now (state.windows key); last_cleanup = now }
    else state

-- The entry of the key: a new one, or the one that is there, started again when it is over.
unfoldable pub current_window : FixedWindowRateLimiter → ℕ → Option RateWindow → RateWindow
current_window limiter now none = record { started_at = now; requests = 0 }
current_window limiter now (some entry) =
    if leb limiter.window (unwrap_or_default (checked_duration_since now entry.started_at))
    then record { started_at = now; requests = 0 }
    else entry

-- The seconds that are left of the window, rounded up, and at least one.
unfoldable pub retry_after : FixedWindowRateLimiter → ℕ → RateWindow → ℕ
retry_after limiter now entry =
    let remaining = limiter.window - (now - entry.started_at) in
    let partial = if ltb 0 (remaining % nanos_per_second) then 1 else 0 in
    max (min (remaining / nanos_per_second + partial) u64_max) 1

abbrev store : RateLimiterState → String → RateWindow → RateLimiterState
store state key entry = record state {
  windows = λ other. if str_eq other key then some entry else state.windows other;
}

unfoldable pub counted : RateWindow → RateWindow
counted entry = record entry { requests = min (entry.requests + 1) u64_max }

unfoldable pub check_at :
    FixedWindowRateLimiter
    → RateLimiterState
    → String
    → ℕ
    → RateLimiterState × Result ApiError (Unit {0})
unfolding cleanup current_window retry_after counted
check_at limiter state key now =
    let cleaned = cleanup limiter now state in
    let entry = current_window limiter now (cleaned.windows key) in
    if leb limiter.max_requests entry.requests
    then (store cleaned key entry, err (too_many_requests (retry_after limiter now entry)))
    else (store cleaned key (counted entry), ok tt)

-- Calls one after the other, with the times at which they read the clock.
pub record Call : Type 0 where
  pub key : String
  pub now : ℕ

unfoldable pub run : FixedWindowRateLimiter → RateLimiterState → List Call → RateLimiterState
unfolding check_at
run limiter state [] = state
run limiter state (call ∷ calls) = run limiter (check_at limiter state call.key call.now).0 calls

abbrev is_ok : Result ApiError (Unit {0}) → Bool
is_ok (ok _) = true
is_ok (err _) = false

-- How many of the calls with the key are let through.
unfoldable pub accepted : FixedWindowRateLimiter → RateLimiterState → String → List Call → ℕ
unfolding check_at
accepted limiter state key [] = 0
accepted limiter state key (call ∷ calls) =
    let (next, outcome) = check_at limiter state call.key call.now in
    let rest = accepted limiter next key calls in
    elim (str_eq call.key key) [ false ↦ rest | true ↦ if is_ok outcome then 1 + rest else rest ]

-- The calls read the clock in the order in which they are served, from `start` on.
abbrev pub InOrder : ℕ → List Call → Type 0
InOrder start [] = Unit
InOrder start (call ∷ calls) = (start ≤ call.now) × InOrder call.now calls
