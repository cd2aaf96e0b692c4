-- ===== src/Server/Lifecycle/Progress.antt =====
-- The servers come to an end: no state is a dead end but the last, and every run is short.
use locaccel.Prelude.{
  ℕ, zero, suc, ◌+◌, ◌*◌, ◌≤◌, ◌<◌, Bool, false, ◌||◌, ◌≡◌, refl, inl, inr, ltb, Bool-cases, arith,
  ◌⊎◌, ap, ◌∙◌, ltb→lt,
}
use locaccel.Server.Lifecycle.{
  Listener, serving, failed, reported, ended, panicked, Closer, idle, closing, closed, received,
  Cause, Main, waiting, collecting, returned, System, Step, fail, report, stop, begin, end, finish,
  receive, return, crash, start, Reach, here, next,
}
use locaccel.Server.Lifecycle.Counted.{
  weight, weight-put_at, taken, taken-le, weight_room, weight_bound, weight_const,
}
use locaccel.Server.Lifecycle.Safety.{Reach-Counts}

-- The steps that a goroutine has left.
unfoldable pub listener_steps : Listener → ℕ
listener_steps serving = 2
listener_steps failed = 1
listener_steps reported = 0
listener_steps ended = 0
listener_steps panicked = 0

unfoldable pub closer_steps : Closer → ℕ
closer_steps idle = 3
closer_steps closing = 2
closer_steps (closed err) = 1
closer_steps (received err) = 0

unfoldable pub main_steps : Main → ℕ
main_steps waiting = 2
main_steps (collecting c k err) = 1
main_steps (returned c err) = 0

unfoldable pub steps_left : ℕ → System → ℕ
steps_left n s =
    weight listener_steps s.listeners n + weight closer_steps s.closers n + main_steps s.main

Step-lt : {n : ℕ} {s t : System} → Step n s t → steps_left n t < steps_left n s
unfolding steps_left listener_steps closer_steps main_steps
Step-lt {n} (fail s i lt e) = ground (arith, weight-put_at listener_steps n s.listeners i failed)
Step-lt {n} (report s i lt m e) =
    ground (arith, weight-put_at listener_steps n s.listeners i reported)
Step-lt (stop s m) = ground arith
Step-lt {n} (begin s c k err i lt m e) =
    ground (arith, weight-put_at closer_steps n s.closers i closing)
Step-lt {n} (end s i lt e d) = ground (arith, weight-put_at listener_steps n s.listeners i ended)
Step-lt {n} (finish s i err lt e) =
    ground (arith, weight-put_at closer_steps n s.closers i (closed err))
Step-lt {n} (receive s c k last err i lt more m e) =
    ground (arith, weight-put_at closer_steps n s.closers i (received err))
Step-lt (return s c last m) = ground arith
Step-lt {n} (crash s c last i lt m e) =
    ground (arith, weight-put_at listener_steps n s.listeners i panicked)

-- The number of steps of a run.
pub run_length : {n : ℕ} {s t : System} → Reach n s t → ℕ
run_length here = 0
run_length (next r st) = suc (run_length r)

run_length_left :
    {n : ℕ} {s t : System} (r : Reach n s t) → run_length r + steps_left n t ≤ steps_left n s
unfolding run_length
run_length_left here = omega arith
run_length_left (next r st) = omega (arith, run_length_left r, Step-lt st)

start_left : (n : ℕ) → steps_left n start ≡ n * 5 + 2
unfolding steps_left listener_steps closer_steps main_steps
start_left n = ground (
  arith,
  weight_const listener_steps n (λ i. serving) serving (λ i. refl),
  weight_const closer_steps n (λ i. idle) idle (λ i. refl),
)

-- Collecting the results brings `ListenAndServe` one step further.
record Advance (n : ℕ) (s : System) (c : Cause) : Type 0 where
  state : System
  step : Step n s state
  taken_more : ℕ
  err : Bool
  still : state.main ≡ collecting c taken_more err
  same : state.listeners ≡ s.listeners
  fewer : steps_left n state < steps_left n s

Advance-closer :
    {n : ℕ} {s : System} (c : Cause) (k : ℕ) (err : Bool) (i : ℕ) (m : s.main ≡ collecting c k err)
    → i < n
    → k < n
    → (d : Closer) → s.closers i ≡ d
    → taken d ≡ 0
    → Advance n s c
unfolding taken
Advance-closer c k err i m lt more idle e h =
    let st = begin _ c k err i lt m e in
    record {
      state = _;
      step = st;
      taken_more = k;
      err = err;
      still = m;
      same = refl;
      fewer = Step-lt st;
    }
Advance-closer c k err i m lt more closing e h =
    let st = finish _ i false lt e in
    record {
      state = _;
      step = st;
      taken_more = k;
      err = err;
      still = m;
      same = refl;
      fewer = Step-lt st;
    }
Advance-closer c k err i m lt more (closed d) e h =
    let st = receive _ c k err d i lt more m e in
    record {
      state = _;
      step = st;
      taken_more = k + 1;
      err = err || d;
      still = refl;
      same = refl;
      fewer = Step-lt st;
    }
Advance-closer c k err i m lt more (received d) e h = absurd (omega arith)

advance :
    {n : ℕ} {s : System} (r : Reach n start s) (c : Cause) (k : ℕ) (err : Bool)
    (m : s.main ≡ collecting c k err)
    → k < n
    → Advance n s c
advance {n} {s} r c k err m more =
    let (i, lt, left) =
      weight_room taken taken-le n s.closers (omega (arith, (Reach-Counts r c k err m).0)) in
    Advance-closer c k err i m lt more (s.closers i) refl left

pub Reach-trans : {n : ℕ} {s t u : System} → Reach n s t → Reach n t u → Reach n s u
Reach-trans r here = r
Reach-trans r (next q st) = next (Reach-trans r q) st

-- The servers come to an end with this cause, and no listener takes a step.
abbrev pub Ends : ℕ → System → Cause → Type 0
Ends n s c =
    (t : System) × (err : Bool) × Reach n s t
    × (t.main ≡ returned c err)
    × (t.listeners ≡ s.listeners)

full-Ends :
    {n : ℕ} {s : System} (r : Reach n start s) (c : Cause) (k : ℕ) (err : Bool)
    → s.main ≡ collecting c k err
    → ltb k n ≡ false
    → Ends n s c
full-Ends {n} {s} r c k err m all =
    let e : k ≡ n =
      ground (arith, Reach-Counts r c k err m, weight_bound taken taken-le n s.closers) in
    let m' : s.main ≡ collecting c n err = m ∙ ap (λ j. collecting c j err) e in
    (record s { main = returned c err }, err, next here (return s c err m'), refl, refl)

pub collecting-Ends :
    (fuel : ℕ) {n : ℕ} {s : System} (r : Reach n start s) (c : Cause) (k : ℕ) (err : Bool)
    → s.main ≡ collecting c k err
    → steps_left n s ≤ fuel
    → Ends n s c
collecting-Ends zero {n} r c k err m few = elim (Bool-cases (ltb k n)) [
  | inr all ↦ full-Ends r c k err m all
  | inl more ↦ let a = advance r c k err m (ltb→lt _ _ more) in absurd (omega (arith, a.fewer))
]
collecting-Ends (suc fuel) {n} r c k err m few = elim (Bool-cases (ltb k n)) [
  | inr all ↦ full-Ends r c k err m all
  | inl more ↦
      let a = advance r c k err m (ltb→lt _ _ more) in
      let rest =
        collecting-Ends fuel (next r a.step) c a.taken_more a.err a.still
          (omega (arith, a.fewer)) in
      (rest.0, rest.1, Reach-trans (next here a.step) rest.2, rest.3, rest.4 ∙ a.same)
]

abbrev pub CanStep : ℕ → System → Type 0
CanStep n s = (t : System) × Step n s t

collecting-CanStep :
    {n : ℕ} {s : System} (r : Reach n start s) (c : Cause) (k : ℕ) (err : Bool)
    → s.main ≡ collecting c k err
    → CanStep n s
collecting-CanStep {n} {s} r c k err m = elim (Bool-cases (ltb k n)) [
  | inr all ↦
      let e : k ≡ n =
        ground (arith, Reach-Counts r c k err m, weight_bound taken taken-le n s.closers) in
      (_, return s c err (m ∙ ap (λ j. collecting c j err) e))
  | inl more ↦ let a = advance r c k err m (ltb→lt _ _ more) in (a.state, a.step)
]

no_deadlock_at :
    {n : ℕ} {s : System} (r : Reach n start s) (m : Main)
    → s.main ≡ m
    → ((c : Cause) × (err : Bool) × (s.main ≡ returned c err)) ⊎ CanStep n s
no_deadlock_at r waiting e = inr (_, stop _ e)
no_deadlock_at r (collecting c k err) e = inr (collecting-CanStep r c k err e)
no_deadlock_at r (returned c err) e = inl (c, err, e)

-- However the goroutines of `n` servers are scheduled, they take at most five steps for each server
-- and two for `ListenAndServe`; and wherever they stand, `ListenAndServe` has returned or some step
-- is possible. There is no endless run and no deadlock, if each call of `Shutdown` returns.
pub run_ends :
    {n : ℕ} {s : System} (r : Reach n start s)
    → (run_length r ≤ n * 5 + 2)
      × (((c : Cause) × (err : Bool) × (s.main ≡ returned c err)) ⊎ CanStep n s)
run_ends {n} {s} r = (omega (arith, run_length_left r, start_left n), no_deadlock_at r s.main refl)
