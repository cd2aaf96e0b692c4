-- ===== src/Server/Lifecycle/Crash.antt =====
-- A failure that comes late: its goroutine sends on the closed channel.
use locaccel.Prelude.{ℕ, ◌<◌, Bool, ◌≡◌, ap, ◌∙◌, arith}
use locaccel.Server.Lifecycle.{
  Listener, failed, panicked, Cause, collecting, System, set_listener, crash, start, Reach, next,
}
use locaccel.Server.Lifecycle.Progress.{steps_left, collecting-Ends}

-- A server fails, and its goroutine gets to send the error only once the `select` is left: from
-- there on a state can be reached in which this goroutine has sent on the channel that the return
-- of `ListenAndServe` closes, which is a panic.
pub late_failure-panicked :
    {n : ℕ} {s : System} (r : Reach n start s) (c : Cause) (k : ℕ) (err : Bool) (i : ℕ)
    (m : s.main ≡ collecting c k err) (late : s.listeners i ≡ failed)
    → i < n
    → (t : System) × Reach n s t × (t.listeners i ≡ panicked)
late_failure-panicked {n} {s} r c k err i m late lt =
    let e = collecting-Ends (steps_left n s) r c k err m (omega arith) in
    (
      set_listener e.0 i panicked,
      next e.2 (crash e.0 c e.1 i lt e.3 (ap (λ (f : ℕ → Listener). f i) e.4 ∙ late)),
      ground arith,
    )
