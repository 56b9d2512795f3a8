-- ===== src/Service/Manager.antt =====
-- `Install`, `Uninstall`, `Start`, `Stop` and `Status` of service/windows.go as changes of what the
-- service control manager has registered.
use zeus_dns_cli.Base.{
  Bool, not, Option, none, some, List, if◌then◌else◌, Text, codes, Result, ok, err,
}
use zeus_dns_cli.Service.{
  State, stopped, start_pending, stop_pending, running, continue_pending, pause_pending, paused,
  unknown, ServiceError, not_installed, other, Scm, stop_and_wait, restart,
}

-- A registered service: its command, its state, and whether its recovery actions are set.
pub record Registered : Type 0 where
  pub exe : Text
  pub args : List Text
  pub state : State
  pub recovers : Bool

-- The one service of the name `config.ServiceName`.
abbrev pub Manager : Type 0
Manager = Option Registered

-- How the calls of the manager end, where they are made: the connection; `CreateService`, which
-- fails in any case where the name is taken; `SetRecoveryActions`; `Delete`; `s.Start`; and the
-- answers of `stopAndWait`, with the state that it leaves where it fails.
pub record Access : Type 0 where
  pub connects : Bool
  pub creates : Bool
  pub recovers : Bool
  pub deletes : Bool
  pub starts : Bool
  pub queries : Bool
  pub scm : Scm
  pub left : State

abbrev pub Outcome : Type 0
Outcome = Result ServiceError (Unit {0}) × Manager

-- The errors of the manager that the program does not tell apart.
abbrev pub refused : ServiceError
refused = other 0

-- `Install`
unfoldable pub install : Access → Text → List Text → Manager → Outcome
install a exe args (some r) = (err refused, some r)
install a exe args none =
    if not a.connects then (err refused, none) else if not a.creates then (err refused, none) else (
      if a.recovers then ok tt else err refused,
      some (record { exe = exe; args = args; state = stopped; recovers = a.recovers }),
    )

-- `stopAndWait` of a service.
unfoldable pub stop_service : Access → Registered → Outcome
stop_service a r = elim (stop_and_wait a.scm) [
  | err e ↦ (err e, some (record r { state = a.left }))
  | ok u ↦ (ok tt, some (record r { state = stopped }))
]

-- `Stop`
unfoldable pub stop : Access → Manager → Outcome
stop a none = (if a.connects then err not_installed else err refused, none)
stop a (some r) = if a.connects then stop_service a r else (err refused, some r)

-- The end of `Uninstall`: the service is deleted if it was stopped.
unfoldable pub delete_stopped : Access → Outcome → Outcome
delete_stopped a (err e, m) = (err e, m)
delete_stopped a (ok u, m) = if a.deletes then (ok tt, none) else (err refused, m)

-- `Uninstall`
unfoldable pub uninstall : Access → Manager → Outcome
uninstall a m = delete_stopped a (stop a m)

-- `Start`: the manager has taken the start over when `s.Start` returns, and the service reports
-- itself as running later.
unfoldable pub start : Access → Manager → Outcome
start a none = (if a.connects then err not_installed else err refused, none)
start a (some r) =
    if a.connects
    then (if a.starts
        then (ok tt, some (record r { state = start_pending }))
        else (err refused, some r))
    else (err refused, some r)

-- `Restart`: the first access is that of `Stop`, the second that of `Start`.
unfoldable pub restart_service : Access → Access → Manager → Outcome
restart_service a b m =
    let (stopping, m') = stop a m in
    let (starting, m'') = start b m' in
    let (started, result) = restart stopping starting in (result, if started then m'' else m')

-- `stateString`
unfoldable pub state_string : State → Text
state_string stopped = codes "stopped"
state_string start_pending = codes "start-pending"
state_string stop_pending = codes "stop-pending"
state_string running = codes "running"
state_string continue_pending = codes "continue-pending"
state_string pause_pending = codes "pause-pending"
state_string paused = codes "paused"
state_string unknown = codes "unknown"

-- `Status`
unfoldable pub status : Access → Manager → Result ServiceError Text
status a none = err (if a.connects then not_installed else refused)
status a (some r) =
    if not a.connects
    then err refused
    else if not a.queries
    then err refused
    else ok (state_string r.state)
