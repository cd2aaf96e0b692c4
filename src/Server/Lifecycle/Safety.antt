-- ===== src/Server/Lifecycle/Safety.antt =====
-- What holds of the servers at each point of a run.
use locaccel.Prelude.{
  ℕ, ◌+◌, ◌<◌, Bool, true, false, ◌||◌, Option, none, some, ◌≡◌, ◌↔◌, refl, sym, ap, ltb, arith,
}
use locaccel.Server.Lifecycle.{
  reported, Closer, idle, closing, closed, received, Cause, failure, Main, waiting, collecting,
  returned, System, put_at, Step, fail, report, stop, begin, end, finish, receive, return, crash,
  start, Reach, here, next,
}
use locaccel.Server.Lifecycle.Counted.{
  weight, weight-put_at, weight_const, taken, erred, taken-le, weight_full, weight_member,
  member-le-weight,
}

-- How many results were taken, and whether one of these was an error.
abbrev pub Counts : ℕ → (ℕ → Closer) → ℕ → Bool → Type 0
Counts n closers k err = (k ≡ weight taken closers n) × (err ≡ ltb 0 (weight erred closers n))

abbrev Closed : ℕ → (ℕ → Closer) → Main → Type 0
Closed n closers waiting = (i : ℕ) → closers i ≡ idle
Closed n closers (collecting c k err) = Counts n closers k err
Closed n closers (returned c err) = Counts n closers n err

Counts-put_at :
    (n : ℕ) (f : ℕ → Closer) (i : ℕ) (c : Closer) (k : ℕ) (err : Bool)
    → i < n
    → taken (f i) ≡ taken c
    → erred (f i) ≡ erred c
    → Counts n f k err
    → Counts n (put_at i c f) k err
Counts-put_at n f i c k err lt t e h =
    ground (arith, weight-put_at taken n f i c, weight-put_at erred n f i c)

Closed-waiting :
    (n : ℕ) (f : ℕ → Closer) (m : Main) → m ≡ waiting → Closed n f m → (i : ℕ) → f i ≡ idle
Closed-waiting n f waiting e h = h
Closed-waiting n f (collecting c k err) e h = cc
Closed-waiting n f (returned c err) e h = cc

module _ (n : ℕ) (f : ℕ → Closer) (c : Cause) (k : ℕ) (err : Bool) where
  Closed-collecting : (m : Main) → m ≡ collecting c k err → Closed n f m → Counts n f k err
  Closed-collecting waiting e h = cc
  Closed-collecting (collecting c' k' err') e h = ground arith
  Closed-collecting (returned c' err') e h = cc

  collecting-Closed : (m : Main) → m ≡ collecting c k err → Counts n f k err → Closed n f m
  collecting-Closed waiting e h = cc
  collecting-Closed (collecting c' k' err') e h = ground arith
  collecting-Closed (returned c' err') e h = cc

Closed-returned :
    (n : ℕ) (f : ℕ → Closer) (c : Cause) (err : Bool) (m : Main)
    → m ≡ returned c err
    → Closed n f m
    → Counts n f n err
Closed-returned n f c err waiting e h = cc
Closed-returned n f c err (collecting c' k' err') e h = cc
Closed-returned n f c err (returned c' err') e h = ground arith

Closed-finish :
    (n : ℕ) (f : ℕ → Closer) (i : ℕ) (err : Bool) (m : Main)
    → i < n
    → f i ≡ closing
    → Closed n f m
    → Closed n (put_at i (closed err) f) m
unfolding taken erred
Closed-finish n f i err waiting lt e h = cc (h i)
Closed-finish n f i err (collecting c k last) lt e h =
    Counts-put_at n f i (closed err) k last lt (ap taken e) (ap erred e) h
Closed-finish n f i err (returned c last) lt e h =
    Counts-put_at n f i (closed err) n last lt (ap taken e) (ap erred e) h

Counts-receive :
    (n : ℕ) (f : ℕ → Closer) (i k : ℕ) (last err : Bool)
    → i < n
    → f i ≡ closed err
    → Counts n f k last
    → Counts n (put_at i (received err) f) (k + 1) (last || err)
unfolding taken erred
Counts-receive n f i k last true lt e h =
    ground
      (arith, weight-put_at taken n f i (received true), weight-put_at erred n f i (received true))
Counts-receive n f i k last false lt e h =
    ground (
      arith,
      weight-put_at taken n f i (received false),
      weight-put_at erred n f i (received false),
    )

Counts-start : (n : ℕ) (f : ℕ → Closer) → ((i : ℕ) → f i ≡ idle) → Counts n f 0 false
unfolding taken erred
Counts-start n f h = ground (arith, weight_const taken n f idle h, weight_const erred n f idle h)

Step-Closed :
    {n : ℕ} {s t : System} → Step n s t → Closed n s.closers s.main → Closed n t.closers t.main
unfolding taken erred
Step-Closed (fail s i lt e) h = h
Step-Closed {n} (report s i lt m e) h = Counts-start n _ (Closed-waiting n _ _ m h)
Step-Closed {n} (stop s m) h = Counts-start n _ (Closed-waiting n _ _ m h)
Step-Closed {n} (begin s c k err i lt m e) h = collecting-Closed n _ c k err _ m (
    Counts-put_at n _ i closing k err lt (ap taken e) (ap erred e)
      (Closed-collecting n _ c k err _ m h))
Step-Closed (end s i lt e d) h = h
Step-Closed {n} (finish s i err lt e) h = Closed-finish n _ i err _ lt e h
Step-Closed {n} (receive s c k last err i lt more m e) h =
    Counts-receive n _ i k last err lt e (Closed-collecting n _ c k last _ m h)
Step-Closed {n} (return s c last m) h = Closed-collecting n _ c n last _ m h
Step-Closed (crash s c last i lt m e) h = h

Reach-Closed : {n : ℕ} {s : System} → Reach n start s → Closed n s.closers s.main
Reach-Closed here = λ i. refl
Reach-Closed (next r st) = Step-Closed st (Reach-Closed r)

pub Reach-Counts :
    {n : ℕ} {s : System}
    → Reach n start s
    → (c : Cause) (k : ℕ) (err : Bool) → s.main ≡ collecting c k err
    → Counts n s.closers k err
Reach-Counts r c k err m = Closed-collecting _ _ c k err _ m (Reach-Closed r)

-- The server whose error ended the `select`, if one did.
abbrev pub blamed : Main → Option Cause
blamed waiting = none
blamed (collecting c k err) = some c
blamed (returned c err) = some c

pub IsBlamed : ℕ → System → Type 0
IsBlamed n s = (i : ℕ) → (s.listeners i ≡ reported) ↔ (blamed s.main ≡ some (failure i))

Step-IsBlamed : {n : ℕ} {s t : System} → Step n s t → IsBlamed n s → IsBlamed n t
unfolding IsBlamed
Step-IsBlamed (fail s i lt e) h = λ j. ground (arith, h j)
Step-IsBlamed (report s i lt m e) h = λ j. ground (arith, h j)
Step-IsBlamed (stop s m) h = λ j. ground (arith, h j)
Step-IsBlamed (begin s c k err i lt m e) h = h
Step-IsBlamed (end s i lt e d) h = λ j. ground (arith, h j)
Step-IsBlamed (finish s i err lt e) h = h
Step-IsBlamed (receive s c k last err i lt more m e) h = λ j. ground (arith, h j)
Step-IsBlamed (return s c last m) h = λ j. ground (arith, h j)
Step-IsBlamed (crash s c last i lt m e) h = λ j. ground (arith, h j)

pub Reach-IsBlamed : {n : ℕ} {s : System} → Reach n start s → IsBlamed n s
unfolding IsBlamed
Reach-IsBlamed here = λ i. ground arith
Reach-IsBlamed (next r st) = Step-IsBlamed st (Reach-IsBlamed r)

taken-received : (c : Closer) → taken c ≡ 1 → (err : Bool) × (c ≡ received err)
unfolding taken
taken-received (received err) h = (err, refl)
taken-received (closed err) h = absurd (omega arith)
taken-received closing h = absurd (omega arith)
taken-received idle h = absurd (omega arith)

erred-received : (c : Closer) → 0 < erred c → c ≡ received true
unfolding erred
erred-received (received true) h = refl
erred-received (received false) h = absurd (omega arith)
erred-received (closed err) h = absurd (omega arith)
erred-received closing h = absurd (omega arith)
erred-received idle h = absurd (omega arith)

Counts-error :
    (n k : ℕ) (f : ℕ → Closer) (err : Bool)
    → Counts n f k err
    → (err ≡ true) ↔ ((i : ℕ) × (i < n) × (f i ≡ received true))
unfolding erred
Counts-error n k f err h = (
  λ e. let (i, lt, pos) = weight_member erred n f (ground arith) in (i, lt, erred-received _ pos),
  λ (i, lt, e). ground (arith, member-le-weight erred n f i, ap erred e),
)

-- When `ListenAndServe` returns, after whatever steps of the goroutines, the result of the shutdown
-- of each server was taken; it returns an error exactly if one of these shutdowns gave an error; and
-- a server's goroutine has handed its error over exactly if this server is what ended the wait.
pub returned-IsShutDown :
    {n : ℕ} {s : System} (r : Reach n start s) (c : Cause) (err : Bool)
    (m : s.main ≡ returned c err) (i : ℕ)
    → i < n
    → ((e : Bool) × (s.closers i ≡ received e))
      × ((err ≡ true) ↔ ((j : ℕ) × (j < n) × (s.closers j ≡ received true)))
      × ((s.listeners i ≡ reported) ↔ (c ≡ failure i))
unfolding IsBlamed
returned-IsShutDown {n} {s} r c err m i lt =
    let counts = Closed-returned n s.closers c err s.main m (Reach-Closed r) in
    (
      taken-received _ (weight_full taken taken-le n s.closers i lt (sym counts.0)),
      Counts-error n n s.closers err counts,
      ground (arith, Reach-IsBlamed r i, m),
    )
