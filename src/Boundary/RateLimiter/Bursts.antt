-- ===== src/Boundary/RateLimiter/Bursts.antt =====
-- How many requests of one caller the limiter of src/http_boundary.rs lets through in a window's time.
use nowledge.Prelude.{
  ℕ, ◌≤◌, ◌<◌, ◌+◌, ◌-◌, ◌*◌, String, str_eq, eq_iff, eq_refl, ◌∙◌, subst, ◌≡◌, refl, sym, false,
  Option, none, some, List, [], ◌∷◌, inl, inr, arith, All, Bool-cases, if◌then◌else◌, leb,
}
use nowledge.Prelude.Sets.{str_eq_comm}
use nowledge.Boundary.RateLimiter.{
  FixedWindowRateLimiter, RateWindow, RateLimiterState, Call, InOrder, u64_max, with_window,
  retained, cleanup, current_window, counted, check_at, run, accepted,
}
use nowledge.Boundary.RateLimiter.Windows.{
  IsTimely, Timely, own_window, own_answer, other_entry, check_at-Timely,
}
use nowledge.Boundary.RateLimiter.Isolation.{last_time, Timely-later}

-- How many more requests the key's entry leaves room for until a window's time after `t`.
budget : FixedWindowRateLimiter → ℕ → Option RateWindow → ℕ
budget limiter t none = limiter.max_requests
budget limiter t (some e) =
    if leb t e.started_at
    then limiter.max_requests - e.requests
    else 2 * limiter.max_requests - e.requests

budget_bound :
    (limiter : FixedWindowRateLimiter) (t : ℕ) (o : Option RateWindow)
    → budget limiter t o ≤ 2 * limiter.max_requests
unfolding budget
budget_bound limiter t none = omega arith
budget_bound limiter t (some e) = ground arith

budget-retained :
    (limiter : FixedWindowRateLimiter) (t now : ℕ) (o : Option RateWindow)
    → t ≤ now
    → now < t + limiter.window
    → IsTimely limiter now o
    → budget limiter t (retained limiter now o) ≤ budget limiter t o
unfolding budget retained
budget-retained limiter t now none h soon timely = omega arith
budget-retained limiter t now (some e) h soon timely = ground arith

budget-cleanup :
    (limiter : FixedWindowRateLimiter) (t now : ℕ) (state : RateLimiterState) (key : String)
    → t ≤ now
    → now < t + limiter.window
    → IsTimely limiter now (state.windows key)
    → budget limiter t ((cleanup limiter now state).windows key)
      ≤ budget limiter t (state.windows key)
unfolding cleanup
budget-cleanup limiter t now state key h soon timely =
    ground (arith, budget-retained limiter t now (state.windows key) h soon timely)

-- A request that is let through uses the budget.
budget-own :
    (limiter : FixedWindowRateLimiter) (t now : ℕ) (o : Option RateWindow)
    → limiter.max_requests ≤ u64_max
    → t ≤ now
    → now < t + limiter.window
    → IsTimely limiter now o
    → let entry = current_window limiter now o in
      let full = leb limiter.max_requests entry.requests in
      (if full then 0 else 1) + budget limiter t (some (if full then entry else counted entry))
      ≤ budget limiter t o
unfolding budget current_window counted
budget-own limiter t now none u h soon timely = ground arith
budget-own limiter t now (some e) u h soon timely = ground arith

pub run-Timely :
    (limiter : FixedWindowRateLimiter) (t : ℕ) (state : RateLimiterState) (calls : List Call)
    → InOrder t calls
    → Timely limiter t state
    → Timely limiter (last_time t calls) (run limiter state calls)
unfolding run
run-Timely limiter t state [] order timely = timely
run-Timely limiter t state (call ∷ calls) order timely =
    run-Timely limiter call.now (check_at limiter state call.key call.now).0 calls order.1
      (check_at-Timely limiter t call.now state call.key order.0 timely)

-- The first of the calls: one of another caller is not counted, and one's own is if it has room.
module _ (limiter : FixedWindowRateLimiter) (state : RateLimiterState) (key : String) where
  accepted-other :
      (call : Call) (calls : List Call)
      → str_eq call.key key ≡ false
      → accepted limiter state key (call ∷ calls)
        ≡ accepted limiter (check_at limiter state call.key call.now).0 key calls
  unfolding accepted
  accepted-other call calls apart = rw (apart, accepted) refl

  accepted-own :
      (now : ℕ) (calls : List Call)
      → IsTimely limiter now (state.windows key)
      → accepted limiter state key (record { key = key; now = now } ∷ calls)
        ≡ (if leb limiter.max_requests (current_window limiter now (state.windows key)).requests
            then 0
            else 1)
          + accepted limiter (check_at limiter state key now).0 key calls
  unfolding accepted
  accepted-own now calls timely =
      let entry = current_window limiter now (state.windows key) in
      elim (Bool-cases (leb limiter.max_requests entry.requests)) [
        | inl full ↦
            rw (eq_refl key, own_answer limiter now state key timely, full, accepted) (omega arith)
        | inr free ↦
            rw (eq_refl key, own_answer limiter now state key timely, free, accepted) (omega arith)
      ]

-- The calls of one window's time stay within the budget.
burst_budget :
    (limiter : FixedWindowRateLimiter) (key : String) (t start : ℕ) (state : RateLimiterState)
    (calls : List Call)
    → limiter.max_requests ≤ u64_max
    → t ≤ start
    → InOrder start calls
    → All (λ call. call.now < t + limiter.window) calls
    → Timely limiter start state
    → accepted limiter state key calls ≤ budget limiter t (state.windows key)
unfolding accepted
burst_budget limiter key t start state [] u h order soon timely = omega arith
burst_budget limiter key t start state (call ∷ calls) u h order soon timely =
    let now = call.now in
    let today = Timely-later limiter start now state order.0 timely key in
    let from : t ≤ now = omega (arith, h, order.0) in
    let later : (k : String)
        → accepted limiter (check_at limiter state k now).0 key calls
          ≤ budget limiter t ((check_at limiter state k now).0.windows key) =
      λ k.
        burst_budget limiter key t now (check_at limiter state k now).0 calls u from order.1 soon.1
          (check_at-Timely limiter start now state k order.0 timely) in
    elim (Bool-cases (str_eq call.key key)) [
      | inr apart ↦
          let entry =
            other_entry limiter now state call.key key (str_eq_comm key call.key ∙ apart) in
          let less = budget-cleanup limiter t now state key from soon.0 today in
          let after = rw entry at (later call.key) in
          rw (accepted-other limiter state key call calls apart) (omega (arith, after, less))
      | inl same ↦
          let eq = (eq_iff call.key key).0 same in
          let used = budget-own limiter t now (state.windows key) u from soon.0 today in
          let after = rw (own_window limiter now state key today) at (later key) in
          subst
            (λ k.
              accepted limiter state key (record { key = k; now = now } ∷ calls)
              ≤ budget limiter t (state.windows key))
            (sym eq)
            (rw (accepted-own limiter state key now calls today) (omega (arith, after, used)))
    ]

-- If `max_requests` is a `u64` and the clock does not go back between calls, then in any stretch
-- of one window's time at most twice `max_requests` requests of a caller are let through, whatever
-- was asked before.
pub burst_limit :
    (max_requests window start : ℕ) (key : String) (before burst : List Call) (t : ℕ)
    → max_requests ≤ u64_max
    → InOrder start before
    → last_time start before ≤ t
    → InOrder t burst
    → All (λ call. call.now < t + window) burst
    → let (limiter, state) = with_window max_requests window start in
      accepted limiter (run limiter state before) key burst ≤ 2 * max_requests
unfolding with_window
burst_limit max_requests window start key before burst t u order h order' soon =
    let (limiter, state) = with_window max_requests window start in
    let s = run limiter state before in
    let timely = run-Timely limiter start state before order (λ k. tt) in
    let bound =
      burst_budget limiter key t t s burst u (omega arith) order' soon
        (Timely-later limiter (last_time start before) t s h timely) in
    omega (arith, bound, budget_bound limiter t (s.windows key))
