-- ===== src/Tests/Server.antt =====
-- Runs of two servers, and of one.
use locaccel.Prelude.{
  String, [], ◌++◌, none, ℕ, ◌+◌, ◌*◌, ◌≤◌, ◌<◌, Bool, true, false, ◌≡◌, ◌↔◌, ◌⊎◌, refl, arith,
}
use locaccel.Config.{Config}
use locaccel.Config.Defaults.{get_base_config, with_default_registries}
use locaccel.Server.Setup.{Standard, new_servers}
use locaccel.Server.Setup.Appended.{IsComplete}
use locaccel.Server.Setup.Plan.{plan_of}
use locaccel.Server.Setup.Complete.{new_servers-IsComplete}
use locaccel.Server.Setup.Contacts.{RunConfined, new_servers-Confined}
use locaccel.Server.Lifecycle.{
  failed, reported, panicked, closing, closed, received, Cause, signal, failure, collecting,
  returned, System, set_listener, set_closer, fail, report, stop, begin, finish, receive, return,
  start, Reach, here, next,
}
use locaccel.Server.Lifecycle.Safety.{returned-IsShutDown}
use locaccel.Server.Lifecycle.Progress.{run_length, run_ends, CanStep}
use locaccel.Server.Lifecycle.Crash.{late_failure-panicked}

abbrev reported_first :
    Reach 2 start (record (set_listener (set_listener start 0 failed) 0 reported) {
      main = collecting (failure 0) 0 false;
    })
reported_first =
    next (next here (fail start 0 (omega arith) refl)) (report _ 0 (omega arith) refl refl)

abbrev both_failed : System
both_failed =
    set_listener
      (record (set_listener (set_listener start 0 failed) 0 reported) {
        main = collecting (failure 0) 0 false;
      })
      1 failed

abbrev fails_late : Reach 2 start both_failed
fails_late = next reported_first (fail _ 1 (omega arith) refl)

late_failure-panicked_example : (t : System) × Reach 2 both_failed t × (t.listeners 1 ≡ panicked)
late_failure-panicked_example =
    late_failure-panicked fails_late (failure 0) 0 false 1 refl refl (omega arith)

run_ends_example :
    (run_length fails_late ≤ 2 * 5 + 2)
    × (((c : Cause) × (err : Bool) × (both_failed.main ≡ returned c err)) ⊎ CanStep 2 both_failed)
run_ends_example = run_ends fails_late

abbrev stopping : System
stopping = set_closer (record start { main = collecting signal 0 false }) 0 closing

abbrev stopped : System
stopped = record (set_closer (set_closer stopping 0 (closed true)) 0 (received true)) {
  main = returned signal true;
}

abbrev stops : Reach 1 start stopped
stops =
    next
      (next
        (next
          (next (next here (stop start refl)) (begin _ signal 0 false 0 (omega arith) refl refl))
          (finish _ 0 true (omega arith) refl))
        (receive _ signal 0 false true 0 (omega arith) (omega arith) refl refl))
      (return _ signal true refl)

returned-IsShutDown_example :
    ((e : Bool) × (stopped.closers 0 ≡ received e))
    × ((true ≡ true) ↔ ((j : ℕ) × (j < 1) × (stopped.closers j ≡ received true)))
    × ((stopped.listeners 0 ≡ reported) ↔ (signal ≡ failure 0))
returned-IsShutDown_example = returned-IsShutDown stops signal true refl 0 (omega arith)

abbrev std : Standard String
std = record {
  galaxy_json = record { decode = λ b. none; encode = λ d. none };
  npm_json = record { decode = λ b. none; encode = λ d. none };
  pypi_json = record { decode = λ b. none; encode = λ d. none };
  urls = record { parse = λ s. none; to_string = λ u. u.path };
  encode_to_string = λ s. s;
  unescape = λ s. s;
  request_url = λ r. r.path;
}

-- The built-in configuration, with two proxies.
abbrev two_proxies : Config
two_proxies =
    let c = with_default_registries (get_base_config (λ name. none)) in
    record c { proxies = c.proxies ++ c.proxies }

new_servers-IsComplete_example :
    IsComplete two_proxies.enable_metrics (plan_of two_proxies) [] (new_servers std two_proxies)
new_servers-IsComplete_example = new_servers-IsComplete two_proxies std

new_servers-Confined_example : RunConfined two_proxies std (new_servers std two_proxies)
new_servers-Confined_example = new_servers-Confined two_proxies std
