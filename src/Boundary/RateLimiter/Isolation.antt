-- ===== src/Boundary/RateLimiter/Isolation.antt =====
-- The callers of the rate limiter of src/http_boundary.rs, and what one sees of the others.
use nowledge.Prelude.{
  ℕ, ◌≤◌, String, str_eq, eq_iff, ◌≡◌, refl, sym, ◌∙◌, ap, false, List, [], ◌∷◌, inl, inr, arith,
  Bool-cases, if◌then◌else◌, leb,
}
use nowledge.Boundary.RateLimiter.{
  FixedWindowRateLimiter, RateWindow, RateLimiterState, Call, InOrder, with_window, current_window,
  counted, check_at, run,
}
use nowledge.Boundary.RateLimiter.Windows.{
  IsTimely-later, Timely, answer, own_window, own_answer, other_window, check_at-Timely,
}

-- The calls with the key.
unfoldable pub only : String → List Call → List Call
only key [] = []
only key (call ∷ calls) =
    let rest = only key calls in if str_eq key call.key then call ∷ rest else rest

-- The time of the last call.
abbrev pub last_time : ℕ → List Call → ℕ
last_time start [] = start
last_time start (call ∷ calls) = last_time call.now calls

-- From `t` on, the two states show the same window for the key.
abbrev SameWindow :
    FixedWindowRateLimiter → String → ℕ → RateLimiterState → RateLimiterState → Type 0
SameWindow limiter key t s s' =
    (later : ℕ)
    → t ≤ later
    → current_window limiter later (s.windows key) ≡ current_window limiter later (s'.windows key)

record Alike (limiter : FixedWindowRateLimiter) (key : String) (t : ℕ) (s s' : RateLimiterState)
    : Type 0 where
  timely : Timely limiter t s
  timely' : Timely limiter t s'
  same : SameWindow limiter key t s s'

pub Timely-later :
    (limiter : FixedWindowRateLimiter) (t later : ℕ) (s : RateLimiterState)
    → t ≤ later
    → Timely limiter t s
    → Timely limiter later s
Timely-later limiter t later s h timely key =
    IsTimely-later limiter t later (s.windows key) h (timely key)

-- A call with the key is answered alike, and leaves the states alike.
own_call :
    (limiter : FixedWindowRateLimiter) (key : String) (t now : ℕ) (s s' : RateLimiterState)
    → t ≤ now
    → Alike limiter key t s s'
    → Alike limiter key now (check_at limiter s key now).0 (check_at limiter s' key now).0
own_call limiter key t now s s' h alike =
    let today = Timely-later limiter t now s h alike.timely in
    let today' = Timely-later limiter t now s' h alike.timely' in
    let next : RateWindow → RateWindow =
      λ entry. if leb limiter.max_requests entry.requests then entry else counted entry in
    record {
      timely = check_at-Timely limiter t now s key h alike.timely;
      timely' = check_at-Timely limiter t now s' key h alike.timely';
      same = λ later l.
          rw
            (
              own_window limiter now s key (today key),
              own_window limiter now s' key (today' key),
              alike.same now h,
            )
            refl;
    }

other_call :
    (limiter : FixedWindowRateLimiter) (key other : String) (t now : ℕ) (s s' : RateLimiterState)
    → str_eq key other ≡ false
    → t ≤ now
    → Alike limiter key t s s'
    → Alike limiter key now (check_at limiter s other now).0 s'
other_call limiter key other t now s s' apart h alike = record {
  timely = check_at-Timely limiter t now s other h alike.timely;
  timely' = Timely-later limiter t now s' h alike.timely';
  same = λ later l.
      other_window limiter now later s other key apart l
        (Timely-later limiter t now s h alike.timely key)
      ∙ alike.same later (omega (arith, h, l));
}

run-Alike :
    (limiter : FixedWindowRateLimiter) (key : String) (t : ℕ) (s s' : RateLimiterState)
    (calls : List Call)
    → InOrder t calls
    → Alike limiter key t s s'
    → Alike limiter key (last_time t calls) (run limiter s calls) (run limiter s' (only key calls))
unfolding run only
run-Alike limiter key t s s' [] order alike = alike
run-Alike limiter key t s s' (call ∷ calls) order alike = elim (Bool-cases (str_eq key call.key)) [
  | inl same ↦ rw same (
      run-Alike limiter key call.now _ _ calls order.1 (
        rw (sym ((eq_iff key call.key).0 same))
          (own_call limiter key t call.now s s' order.0 alike)))
  | inr apart ↦ rw apart (
      run-Alike limiter key call.now _ s' calls order.1
        (other_call limiter key call.key t call.now s s' apart order.0 alike))
]

-- From a new limiter on, what a caller is answered depends on its own earlier calls only, as long
-- as the clock does not go back between calls.
pub caller_isolation :
    (max_requests window start now : ℕ) (key : String) (calls : List Call)
    → InOrder start calls
    → last_time start calls ≤ now
    → let (limiter, state) = with_window max_requests window start in
      (check_at limiter (run limiter state calls) key now).1
      ≡ (check_at limiter (run limiter state (only key calls)) key now).1
unfolding with_window
caller_isolation max_requests window start now key calls order h =
    let (limiter, state) = with_window max_requests window start in
    let begin : Alike limiter key start state state = record {
      timely = λ k. tt;
      timely' = λ k. tt;
      same = λ later l. refl;
    } in
    let alike = run-Alike limiter key start state state calls order begin in
    let t = last_time start calls in
    let s = run limiter state calls in
    let s' = run limiter state (only key calls) in
    let today = Timely-later limiter t now s h alike.timely key in
    let today' = Timely-later limiter t now s' h alike.timely' key in
    own_answer limiter now s key today
    ∙ ap (answer limiter now) (alike.same now h)
    ∙ sym (own_answer limiter now s' key today')
