-- ===== src/Service.antt =====
-- cmd/trackdown/service_windows.go: the loop that the Windows service manager controls. The two
-- channels are one sequence of messages, in the order in which `select` takes them; logging is left
-- out. On other systems (service_other.go) there is no service.
pub mod Manage
pub mod Control
use trackdown.Prelude.{
  ℕ, Text, Bool, true, false, Option, none, some, List, [], ◌∷◌, ◌++◌, if◌then◌else◌,
}

-- `svc.Cmd`, `svc.State` and `svc.Status`
pub data Cmd : Type 0 where
  interrogate stop shutdown : Cmd
  other : ℕ → Cmd

pub data State : Type 0 where
  start_pending running stop_pending stopped : State

pub record Status : Type 0 where
  pub state : State
  pub accept_stop : Bool
  pub accept_shutdown : Bool

-- what `ListenAndServe` returned, if it is not nil
pub data ServeError : Type 0 where
  server_closed : ServeError
  failure : Text → ServeError

-- what `select` takes from the channels
pub data Message : Type 0 where
  served : Option ServeError → Message
  change_request : Cmd → Message

-- what the loop does
pub data Act : Type 0 where
  report : Status → Act
  cancel shutdown_server : Act

abbrev pub bare : State → Status
bare s = record { state = s; accept_stop = false; accept_shutdown = false }

abbrev pub accepting : Status
accepting = record { state = running; accept_stop = true; accept_shutdown = true }

-- `nextServiceAction`
unfoldable pub next_service_action : Cmd → Status → Option Status × Bool
next_service_action interrogate current = (some current, false)
next_service_action stop current = (none, true)
next_service_action shutdown current = (none, true)
next_service_action (other n) current = (none, false)

abbrev pub exit_code : Option ServeError → ℕ
exit_code none = 0
exit_code (some server_closed) = 0
exit_code (some (failure e)) = 1

abbrev pub respond : Option Status → Status → List Act × Status
respond none current = ([], current)
respond (some status) current = (report status ∷ [], status)

-- the loop; none is no exit code yet, while it waits for the next message
unfoldable pub run_loop : List Message → Status → List Act × Option ℕ
unfolding next_service_action
run_loop [] current = ([], none)
run_loop (served e ∷ ms) current = (report (bare stopped) ∷ [], some (exit_code e))
run_loop (change_request cmd ∷ ms) current =
    let (status, should_stop) = next_service_action cmd current in
    let (acts, current') = respond status current in
    let (later, code) = run_loop ms current' in
    if should_stop
    then (
      acts ++ report (bare stop_pending) ∷ cancel ∷ shutdown_server ∷ report (bare stopped) ∷ [],
      some 0,
    )
    else (acts ++ later, code)

-- `serviceHandler.Execute`
unfoldable pub execute : List Message → List Act × Option ℕ
unfolding run_loop
execute ms =
    let (acts, code) = run_loop ms accepting in
    (report (bare start_pending) ∷ report accepting ∷ acts, code)
