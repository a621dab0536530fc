-- ===== src/Boundary/RateLimiter/Retry.antt =====
-- The `Retry-After` of the rate limiter of src/http_boundary.rs, and a caller that waits for it.
use nowledge.Prelude.{
  ℕ, ◌≤◌, ◌+◌, ◌*◌, String, ◌≡◌, refl, sym, ◌∙◌, List, true, some, inl, inr, arith, ok, err,
  Bool-cases, leb,
}
use nowledge.Boundary.Errors.{too_many_requests}
use nowledge.Boundary.RateLimiter.{
  FixedWindowRateLimiter, RateWindow, nanos_per_second, u64_max, current_window, Call, InOrder,
  with_window, run, retry_after, check_at,
}
use nowledge.Boundary.RateLimiter.Windows.{
  answer, current_window-IsTimely, own_window, own_answer, check_at-Timely,
}
use nowledge.Boundary.RateLimiter.Isolation.{last_time, Timely-later}
use nowledge.Boundary.RateLimiter.Bursts.{run-Timely}

-- Once the time has passed, the window is over.
waited :
    (limiter : FixedWindowRateLimiter) (now : ℕ) (entry : RateWindow)
    → limiter.window ≤ u64_max * nanos_per_second
    → (1 ≤ retry_after limiter now entry)
      × (entry.started_at ≤ now
          → entry.started_at + limiter.window
            ≤ now + retry_after limiter now entry * nanos_per_second)
unfolding retry_after
waited limiter now entry w = ground arith

opened :
    (limiter : FixedWindowRateLimiter) (later : ℕ) (entry : RateWindow)
    → entry.started_at + limiter.window ≤ later
    → (current_window limiter later (some entry)).requests ≡ 0
unfolding current_window
opened limiter later entry h = ground arith

-- A refusal comes from a full window, whose remaining time it gives.
refused :
    (limiter : FixedWindowRateLimiter) (now n : ℕ) (entry : RateWindow)
    → answer limiter now entry ≡ err (too_many_requests n)
    → (leb limiter.max_requests entry.requests ≡ true) × (n ≡ retry_after limiter now entry)
refused limiter now n entry h = elim (Bool-cases (leb limiter.max_requests entry.requests)) [
  | inl full ↦ (let same = rw full at h in (full, cc))
  | inr free ↦ (let wrong = rw free at h in absurd (cc))
]

-- If the limit is at least one request, the window's seconds are a `u64` and the clock does not go
-- back, a refusal names at least one second, and the caller's next call, when it comes after that
-- time, is let through, whatever was asked before the refusal.
pub retry_succeeds :
    (max_requests window start : ℕ) (key : String) (calls : List Call) (now n later : ℕ)
    → 1 ≤ max_requests
    → window ≤ u64_max * nanos_per_second
    → InOrder start calls
    → last_time start calls ≤ now
    → let (limiter, state) = with_window max_requests window start in
      let (next, outcome) = check_at limiter (run limiter state calls) key now in
      outcome ≡ err (too_many_requests n)
      → now + n * nanos_per_second ≤ later
      → (1 ≤ n) × ((check_at limiter next key later).1 ≡ ok tt)
unfolding with_window
retry_succeeds max_requests window start key calls now n later some_room short order h outcome
      wait =
    let (limiter, state) = with_window max_requests window start in
    let s = run limiter state calls in
    let timely =
      Timely-later limiter (last_time start calls) now s h
        (run-Timely limiter start state calls order (λ k. tt)) in
    let entry = current_window limiter now (s.windows key) in
    let next = (check_at limiter s key now).0 in
    let (full, delay) =
      refused limiter now n entry (sym (own_answer limiter now s key (timely key)) ∙ outcome) in
    let kept : next.windows key ≡ some entry =
      own_window limiter now s key (timely key) ∙ rw full refl in
    let begun = current_window-IsTimely limiter now (s.windows key) (timely key) in
    let (positive, enough) = waited limiter now entry short in
    let over : (current_window limiter later (next.windows key)).requests ≡ 0 =
      rw kept (opened limiter later entry (omega (arith, enough begun.0, delay, wait))) in
    let next_timely =
      Timely-later limiter now later next (omega (arith, wait))
        (check_at-Timely limiter now now s key (omega arith) timely) in
    (
      omega (arith, positive, delay),
      own_answer limiter later next key (next_timely key) ∙ rw over (ground arith),
    )
