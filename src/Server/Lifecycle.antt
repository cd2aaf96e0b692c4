-- ===== src/Server/Lifecycle.antt =====
-- `Server.ListenAndServe` as the steps that its goroutines take, in any order.
pub mod Counted
pub mod Safety
pub mod Progress
pub mod Crash
use locaccel.Prelude.{ℕ, ◌+◌, ◌<◌, Bool, false, ◌||◌, eqb, if◌then◌else◌, ◌≡◌, ◌≢◌}

-- The goroutine of a server: `ListenAndServe` runs; it has failed, and the error is to be sent on
-- `errChan`; the error was taken; the server was closed; it sent on the closed channel.
pub data Listener : Type 0 where
  serving failed reported ended panicked : Listener

-- The goroutine that shuts a server down: it has not begun; it is in `Shutdown`, which has called the
-- server off; it has the result, where true is an error, for `closingErrs`; the result was taken.
pub data Closer : Type 0 where
  idle closing : Closer
  closed received : Bool → Closer

-- What ended the `select`: a signal, or the error of a server.
pub data Cause : Type 0 where
  signal : Cause
  failure : ℕ → Cause

-- The function itself: in the `select`; taking the results, of which it has so many, with whether
-- `lastErr` is set; returned.
pub data Main : Type 0 where
  waiting : Main
  collecting : Cause → ℕ → Bool → Main
  returned : Cause → Bool → Main

-- The servers are numbered.
pub record System : Type 0 where
  pub listeners : ℕ → Listener
  pub closers : ℕ → Closer
  pub main : Main

abbrev pub put_at {ℓ} : {A : Type ℓ} → ℕ → A → (ℕ → A) → ℕ → A
put_at i a f j = if eqb i j then a else f j

abbrev pub set_listener : System → ℕ → Listener → System
set_listener s i l = record s { listeners = put_at i l s.listeners }

abbrev pub set_closer : System → ℕ → Closer → System
set_closer s i c = record s { closers = put_at i c s.closers }

-- The steps of `n` servers. The channels have no buffer: a value is sent when it is taken.
pub data Step (n : ℕ) : System → System → Type 0 where
  -- an error other than `ErrServerClosed`: as long as it has not begun to serve, also of a server that
  -- is shut down
  fail : (s : System) (i : ℕ) → i < n → s.listeners i ≡ serving → Step n s (set_listener s i failed)
  report :
      (s : System) (i : ℕ)
      → i < n
      → s.main ≡ waiting
      → s.listeners i ≡ failed
      → Step n s (record (set_listener s i reported) { main = collecting (failure i) 0 false })
  stop : (s : System) → s.main ≡ waiting → Step n s (record s { main = collecting signal 0 false })
  begin :
      (s : System) (c : Cause) (k : ℕ) (err : Bool) (i : ℕ)
      → i < n
      → s.main ≡ collecting c k err
      → s.closers i ≡ idle
      → Step n s (set_closer s i closing)
  end :
      (s : System) (i : ℕ)
      → i < n
      → s.listeners i ≡ serving
      → s.closers i ≢ idle
      → Step n s (set_listener s i ended)
  finish :
      (s : System) (i : ℕ) (err : Bool)
      → i < n
      → s.closers i ≡ closing
      → Step n s (set_closer s i (closed err))
  receive :
      (s : System) (c : Cause) (k : ℕ) (last err : Bool) (i : ℕ)
      → i < n
      → k < n
      → s.main ≡ collecting c k last
      → s.closers i ≡ closed err
      → Step n s
          (record (set_closer s i (received err)) { main = collecting c (k + 1) (last || err) })
  return :
      (s : System) (c : Cause) (last : Bool)
      → s.main ≡ collecting c n last
      → Step n s (record s { main = returned c last })
  -- `errChan` is closed by the deferred call
  crash :
      (s : System) (c : Cause) (last : Bool) (i : ℕ)
      → i < n
      → s.main ≡ returned c last
      → s.listeners i ≡ failed
      → Step n s (set_listener s i panicked)

abbrev pub start : System
start = record { listeners = λ i. serving; closers = λ i. idle; main = waiting }

-- `t` comes after `s`.
pub data Reach (n : ℕ) (s : System) : System → Type 0 where
  here : Reach n s s
  next : {t u : System} → Reach n s t → Step n t u → Reach n s u
