-- ===== src/Boundary/RateLimiter/Windows.antt =====
-- What one call of the rate limiter of src/http_boundary.rs does to the window of each key.
use nowledge.Prelude.{
  ℕ, ◌≤◌, String, str_eq, eq_iff, eq_refl, ◌≡◌, refl, false, inl, inr, Option, none, some, arith,
  Bool-cases, ltb, leb, if◌then◌else◌, Result, ok, err,
}
use nowledge.Boundary.Errors.{ApiError, too_many_requests}
use nowledge.Boundary.RateLimiter.{
  is_some_and, checked_duration_since, RateWindow, RateLimiterState, FixedWindowRateLimiter,
  retry_after, retained, cleanup, current_window, counted, check_at,
}

-- An entry that began by `t` and counts no more than the limit.
abbrev pub IsTimely : FixedWindowRateLimiter → ℕ → Option RateWindow → Type 0
IsTimely limiter t none = Unit
IsTimely limiter t (some e) = (e.started_at ≤ t) × (e.requests ≤ limiter.max_requests)

abbrev pub Timely : FixedWindowRateLimiter → ℕ → RateLimiterState → Type 0
Timely limiter t state = (key : String) → IsTimely limiter t (state.windows key)

-- The cleanup drops only what is over: no later call sees a difference.
pub current_window-retained :
    (limiter : FixedWindowRateLimiter) (now later : ℕ) (o : Option RateWindow)
    → now ≤ later
    → IsTimely limiter now o
    → current_window limiter later (retained limiter now o) ≡ current_window limiter later o
unfolding current_window retained
current_window-retained limiter now later none h timely = refl
current_window-retained limiter now later (some e) h timely = ground arith

pub current_window-cleanup :
    (limiter : FixedWindowRateLimiter) (now later : ℕ) (state : RateLimiterState) (key : String)
    → now ≤ later
    → IsTimely limiter now (state.windows key)
    → current_window limiter later ((cleanup limiter now state).windows key)
      ≡ current_window limiter later (state.windows key)
unfolding cleanup
current_window-cleanup limiter now later state key h timely =
    ground (arith, current_window-retained limiter now later (state.windows key) h timely)

-- The window of a call's own key after the call.
pub own_window :
    (limiter : FixedWindowRateLimiter) (now : ℕ) (state : RateLimiterState) (key : String)
    → IsTimely limiter now (state.windows key)
    → let entry = current_window limiter now (state.windows key) in
      (check_at limiter state key now).0.windows key
      ≡ some (if leb limiter.max_requests entry.requests then entry else counted entry)
unfolding check_at
own_window limiter now state key timely =
    rw (current_window-cleanup limiter now now state key (omega arith) timely)
      (ground (arith, eq_refl key))

-- What the call answers, from the window of its key.
abbrev pub answer : FixedWindowRateLimiter → ℕ → RateWindow → Result ApiError (Unit {0})
answer limiter now entry =
    if leb limiter.max_requests entry.requests
    then err (too_many_requests (retry_after limiter now entry))
    else ok tt

pub own_answer :
    (limiter : FixedWindowRateLimiter) (now : ℕ) (state : RateLimiterState) (key : String)
    → IsTimely limiter now (state.windows key)
    → (check_at limiter state key now).1
      ≡ answer limiter now (current_window limiter now (state.windows key))
unfolding check_at
own_answer limiter now state key timely =
    rw (current_window-cleanup limiter now now state key (omega arith) timely) (ground arith)

pub other_entry :
    (limiter : FixedWindowRateLimiter) (now : ℕ) (state : RateLimiterState) (key other : String)
    → str_eq other key ≡ false
    → (check_at limiter state key now).0.windows other ≡ (cleanup limiter now state).windows other
unfolding check_at
other_entry limiter now state key other apart =
    let entry = current_window limiter now ((cleanup limiter now state).windows key) in
    elim (Bool-cases (leb limiter.max_requests entry.requests)) [
      | inl full ↦ rw (full, apart) refl
      | inr free ↦ rw (free, apart) refl
    ]

-- A call leaves the windows of the other keys as every later call sees them.
pub other_window :
    (limiter : FixedWindowRateLimiter) (now later : ℕ) (state : RateLimiterState)
    (key other : String)
    → str_eq other key ≡ false
    → now ≤ later
    → IsTimely limiter now (state.windows other)
    → current_window limiter later ((check_at limiter state key now).0.windows other)
      ≡ current_window limiter later (state.windows other)
other_window limiter now later state key other apart h timely =
    rw (other_entry limiter now state key other apart)
      (current_window-cleanup limiter now later state other h timely)

IsTimely-retained :
    (limiter : FixedWindowRateLimiter) (now : ℕ) (o : Option RateWindow)
    → IsTimely limiter now o
    → IsTimely limiter now (retained limiter now o)
unfolding retained
IsTimely-retained limiter now none timely = tt
IsTimely-retained limiter now (some e) timely =
    elim (Bool-cases
      (is_some_and (checked_duration_since now e.started_at) (λ d. ltb d limiter.window))) [
        | inl keep ↦ rw keep timely
        | inr drop ↦ rw drop tt
      ]

cleanup-Timely :
    (limiter : FixedWindowRateLimiter) (now : ℕ) (state : RateLimiterState)
    → Timely limiter now state
    → Timely limiter now (cleanup limiter now state)
unfolding cleanup
cleanup-Timely limiter now state timely key =
    elim (Bool-cases
      (is_some_and (checked_duration_since now state.last_cleanup) (λ d. leb limiter.window d))) [
        | inl due ↦ rw due (IsTimely-retained limiter now (state.windows key) (timely key))
        | inr not_due ↦ rw not_due (timely key)
      ]

pub IsTimely-later :
    (limiter : FixedWindowRateLimiter) (t later : ℕ) (o : Option RateWindow)
    → t ≤ later
    → IsTimely limiter t o
    → IsTimely limiter later o
IsTimely-later limiter t later none h timely = tt
IsTimely-later limiter t later (some e) h timely = (omega (arith, timely), timely.1)

pub current_window-IsTimely :
    (limiter : FixedWindowRateLimiter) (now : ℕ) (o : Option RateWindow)
    → IsTimely limiter now o
    → IsTimely limiter now (some (current_window limiter now o))
unfolding current_window
current_window-IsTimely limiter now none timely = (omega arith, omega arith)
current_window-IsTimely limiter now (some e) timely = ground (arith, timely)

next_entry-IsTimely :
    (limiter : FixedWindowRateLimiter) (now : ℕ) (e : RateWindow)
    → IsTimely limiter now (some e)
    → IsTimely limiter now (some (if leb limiter.max_requests e.requests then e else counted e))
unfolding counted
next_entry-IsTimely limiter now e timely = ground (arith, timely)

-- The invariant: entries begin in the past, and count no more than the limit.
pub check_at-Timely :
    (limiter : FixedWindowRateLimiter) (t now : ℕ) (state : RateLimiterState) (key : String)
    → t ≤ now
    → Timely limiter t state
    → Timely limiter now (check_at limiter state key now).0
check_at-Timely limiter t now state key h timely other =
    let today : Timely limiter now state =
      λ k. IsTimely-later limiter t now (state.windows k) h (timely k) in
    elim (Bool-cases (str_eq other key)) [
      | inr apart ↦
          rw (other_entry limiter now state key other apart)
            (cleanup-Timely limiter now state today other)
      | inl same ↦
          let entry = current_window limiter now (state.windows key) in
          rw ((eq_iff other key).0 same, own_window limiter now state key (today key))
            (next_entry-IsTimely limiter now entry
              (current_window-IsTimely limiter now (state.windows key) (today key)))
    ]
