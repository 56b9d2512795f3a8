-- ===== src/Service.antt =====
-- The Windows service of service/windows.go: the wait for a stop, `Restart`, and the loop of
-- `Execute` that the service control manager drives.
pub mod Waits
pub mod Ends
pub mod Manager
use zeus_dns_cli.Base.{
  ℕ, zero, suc, ◌+◌, Bool, true, false, ◌&&◌, not, Option, none, some, List, [], ◌∷◌, ◌++◌,
  if◌then◌else◌, Result, ok, err, ◌>>=◌, ◌>>◌,
}

-- `svc.State`
pub data State : Type 0 where
  stopped start_pending stop_pending running continue_pending pause_pending paused unknown : State

abbrev pub is_stopped : State → Bool
is_stopped stopped = true
is_stopped s = false

-- The errors of the service control manager: the two that `isNotRunning` tolerates, and others.
pub data ServiceError : Type 0 where
  not_active not_installed : ServiceError
  other : ℕ → ServiceError
  timed_out : ServiceError

-- `isNotRunning`
unfoldable pub is_not_running : ServiceError → Bool
is_not_running not_active = true
is_not_running not_installed = true
is_not_running e = false

-- `s.Query()` at its calls, counted, and what `s.Control(svc.Stop)` returns.
pub record Scm : Type 0 where
  pub query : ℕ → Result ServiceError State
  pub control_stop : Result ServiceError (Unit {0})

-- The loop of `stopAndWait`: `left` rounds, the next query being the `i`-th.
unfoldable pub wait_loop : Scm → ℕ → ℕ → Result ServiceError (Unit {0})
wait_loop S zero i = err timed_out
wait_loop S (suc left) i = elim (S.query i) [
  | err e ↦ err e
  | ok state ↦ elim (is_stopped state) [ true ↦ ok tt | false ↦ wait_loop S left (i + 1) ]
]

-- `stopAndWait` behind its first query
unfoldable pub stop_running : Scm → Result ServiceError (Unit {0})
stop_running S = S.control_stop >> wait_loop S 40 1

-- `stopAndWait`
unfoldable pub stop_and_wait : Scm → Result ServiceError (Unit {0})
stop_and_wait S = elim (S.query 0) [
  | err e ↦ stop_running S
  | ok state ↦ if is_stopped state then ok tt else stop_running S
]

-- `Restart`, from what `Stop` and `Start` return: whether `Start` was called, and the result.
unfoldable pub restart :
    Result ServiceError (Unit {0})
    → Result ServiceError (Unit {0})
    → Bool × Result ServiceError (Unit {0})
restart (ok u) started = (true, started)
restart (err e) started = if is_not_running e then (true, started) else (false, err e)

-- What reaches the `select` of `Execute`: a request of the manager, or the end of `run`, which may
-- be an error or a panic.
pub data Event : Type 0 where
  interrogate : State → Event
  stop shutdown other_request : Event
  done : (failed : Bool) → Event

-- The loop of `Execute` over the events in their order: the statuses that it reports, whether it
-- cancels the context of `run`, and its exit code where it returns. Behind a stop it waits for
-- `run`, which is taken to end once its context is cancelled.
pub record Course : Type 0 where
  pub reported : List State
  pub cancelled : Bool
  pub exit_code : Option ℕ

abbrev pub report : State → Course → Course
report s c = record c { reported = s ∷ c.reported }

abbrev pub end_with : ℕ → Course
end_with code = record {
  reported = stop_pending ∷ stopped ∷ [];
  cancelled = true;
  exit_code = some code;
}

unfoldable pub serve_loop : List Event → Course
serve_loop [] = record { reported = []; cancelled = false; exit_code = none }
serve_loop (interrogate current ∷ events) = report current (serve_loop events)
serve_loop (stop ∷ events) = end_with 0
serve_loop (shutdown ∷ events) = end_with 0
serve_loop (other_request ∷ events) = serve_loop events
serve_loop (done failed ∷ events) = end_with (if failed then 1 else 0)

-- `Execute`
unfoldable pub execute : List Event → Course
execute events = report start_pending (report running (serve_loop events))
