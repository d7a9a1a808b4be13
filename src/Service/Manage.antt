-- ===== src/Service/Manage.antt =====
-- cmd/trackdown/service_manage_windows.go: `trackdown service …`, with the calls of the service
-- manager that it makes. What is printed is left out.
pub mod Handles
pub mod Installs
use trackdown.Prelude.{
  Text, codes, Bool, true, false, Option, none, some, List, [], ◌∷◌, ◌++◌, if◌then◌else◌, str_eq,
}
use trackdown.Calls.{
  Outcome, Program, Replies, ◌>>=◌, ◌>>◌, pure, fail, clean_up, step, probe, deferred,
}

pub data ScmCall : Type 0 where
  find_executable connect disconnect : ScmCall
  open_service close_service delete start control_stop : ScmCall
  create_service : Text → List Text → ScmCall

-- `serviceName`
abbrev pub service_name : Text
service_name = codes "Trackdown"

module _ (replies : Replies ScmCall) where
  -- a program between `mgr.Connect` and its deferred `Disconnect`
  unfoldable pub connected : Program ScmCall (Unit {0}) → Program ScmCall (Unit {0})
  connected p = do
    step replies [] (codes "connecting to the service manager (try running as Administrator): ")
        connect
    deferred (clean_up replies (disconnect ∷ [])) p

  -- an action on the open service, with its deferred `Close`
  unfoldable pub on_service : Text → Text → ScmCall → Program ScmCall (Unit {0})
  on_service hint what action = do
    step replies [] (codes "service \"Trackdown\" is not installed" ++ hint ++ codes ": ")
        open_service
    deferred (clean_up replies (close_service ∷ [])) (step replies [] what action)

  -- `serviceInstall`, when the service is there
  unfoldable pub already_installed : Program ScmCall (Unit {0})
  already_installed = do
    clean_up replies (close_service ∷ [])
    fail (
        codes
          "service \"Trackdown\" is already installed (uninstall it first to change its configuration)")

  unfoldable pub create : Text → List Text → Program ScmCall (Unit {0})
  create exe_path serve_args = do
    step replies [] (codes "creating service: ")
        (create_service exe_path (codes "serve" ∷ serve_args))
    deferred (clean_up replies (close_service ∷ [])) (pure tt)

  -- `serviceInstall`, from the path that `os.Executable` gives if it gives no error
  unfoldable pub service_install : Text → List Text → Program ScmCall (Unit {0})
  service_install exe_path serve_args = do
    step replies [] (codes "determining executable path: ") find_executable
    connected (probe replies open_service already_installed (λ e. create exe_path serve_args))

  -- `serviceUninstall`
  unfoldable pub service_uninstall : Program ScmCall (Unit {0})
  service_uninstall = connected (on_service [] (codes "deleting service: ") delete)

  -- `serviceStart`
  unfoldable pub service_start : Program ScmCall (Unit {0})
  service_start = connected (
      on_service (codes " (run 'trackdown service install' first)") (codes "starting service: ")
        start)

  -- `serviceStop`
  unfoldable pub service_stop : Program ScmCall (Unit {0})
  service_stop = connected (on_service [] (codes "stopping service: ") control_stop)

  -- `serviceCommand`; `quote` is the `%q` of fmt
  unfoldable pub service_command : (Text → Text) → Text → List Text → Program ScmCall (Unit {0})
  unfolding str_eq
  service_command quote exe_path [] =
      fail (codes "usage: trackdown service <install|uninstall|start|stop> [-- <serve flags>]")
  service_command quote exe_path (name ∷ args) =
      if str_eq name (codes "install")
      then service_install exe_path args
      else if str_eq name (codes "uninstall")
      then service_uninstall
      else if str_eq name (codes "start")
      then service_start
      else if str_eq name (codes "stop")
      then service_stop
      else fail (
          codes "unknown service subcommand "
          ++ quote name
          ++ codes " (want install, uninstall, start, or stop)")
