-- ===== src/Command/System/Projects.antt =====
-- A project stays as it was created whenever the program runs.
use trackdown.Prelude.{◌≡◌, refl, Text, some, List, [], ◌∷◌, ◌++◌, ℤ, find, find-append}
use trackdown.Alert.{Notifier}
use trackdown.Store.Types.{Project, Tables, Time}
use trackdown.Store.Query.{Session}
use trackdown.Store.Query.Laws.{execute_keeps}
use trackdown.Store.Events.{Zone, delete_old_events}
use trackdown.Store.Projects.{find_project, has_project_id, new_project}
use trackdown.Store.Kept.Aside.{aside-IsKept}
use trackdown.Command.{run_once}
use trackdown.Command.Routes.{Setting}
use trackdown.Command.System.{State, Reach, session_of, IsInvariant, Reach_keeps}
use trackdown.Command.System.Deliveries.{free-IsInvariant}

module _ (id : Text) (p : Project) where
  -- the project of this id is this one
  abbrev pub IsProject : Tables → Type 0
  IsProject t = find_project id t ≡ some p

  adds :
      (other public_key : Text) (now : Time) (projects : List Project)
      → find (has_project_id id) projects ≡ some p
      → find (has_project_id id) (projects ++ (new_project other public_key now ∷ [])) ≡ some p
  adds other public_key now projects h = rw (find-append, h) refl

  run_once-IsProject :
      (zone : Zone) (retention : ℤ) (s : Session)
      → IsProject s.tables
      → IsProject (run_once zone retention s).tables
  unfolding run_once delete_old_events
  run_once-IsProject zone retention s h = execute_keeps IsProject _ s h h

  module _ {L F J W : Type 0} (setting : Setting L F J) (notifier : Notifier W)
      (retention : ℤ) where
    IsProject-IsInvariant : IsInvariant notifier retention IsProject
    IsProject-IsInvariant =
        free-IsInvariant IsProject (λ t outbox seq h. h) notifier retention
          (aside-IsKept (λ projects outbox. find (has_project_id id) projects ≡ some p)
            (λ other key now projects outbox absent h. adds other key now projects h))
          (λ zone. run_once-IsProject zone retention)

    -- A project that exists keeps its public key, its name and the time of its creation in every state
    -- that the program reaches, whatever keys later requests bring and whatever else happens.
    pub Reach-IsProject :
        {st st' : State L F W}
        → find_project id (session_of st).tables ≡ some p
        → Reach setting notifier retention st st'
        → find_project id (session_of st').tables ≡ some p
    Reach-IsProject h r = Reach_keeps setting notifier retention IsProject IsProject-IsInvariant h r
