-- ===== src/Examples/Services.antt =====
-- The Windows service and its management.
use trackdown.Prelude.{◌≡◌, refl, Text, codes, none, some, [], ◌∷◌, ◌++◌}
use trackdown.Calls.{Replies}
use trackdown.Calls.Held.{held}
use trackdown.Service.{
  served, change_request, interrogate, stop, other, failure, bare, accepting, start_pending, report,
  execute,
}
use trackdown.Service.Control.{answered, final, execute-final}
use trackdown.Service.Manage.{ScmCall, open_service, service_command}
use trackdown.Service.Manage.Handles.{service_command-held}
use trackdown.Service.Manage.Handles as Handles

abbrev plain : Text → Text
plain t = t

execute-final_example :
    execute (
      (change_request interrogate ∷ change_request (other 4) ∷ [])
      ++ served (some (failure (codes "bind"))) ∷ change_request stop ∷ [])
    ≡ (
      report (bare start_pending)
          ∷ report accepting
          ∷ (answered 1 ++ (final (served (some (failure (codes "bind"))))).0),
      (final (served (some (failure (codes "bind"))))).1,
    )
execute-final_example =
    execute-final (change_request interrogate ∷ change_request (other 4) ∷ [])
      (served (some (failure (codes "bind")))) (change_request stop ∷ []) (tt, (tt, tt)) (λ q. q)

-- the service is not installed
abbrev no_service : Replies ScmCall
no_service t open_service = some (codes "no such service")
no_service t _ = none

service_command-held_example :
    held Handles.same_handle Handles.effect
      (service_command no_service plain (codes "trackdown.exe") (codes "start" ∷ []) []).1
    ≡ some []
service_command-held_example =
    service_command-held no_service plain (codes "trackdown.exe") (codes "start" ∷ []) [] refl
