-- ===== src/Command/System/Consistent.antt =====
-- The database is consistent whenever the program runs.
use trackdown.Prelude.{◌≡◌, refl, sym, subst, ℤ}
use trackdown.Alert.{Notifier}
use trackdown.Store.Types.{empty_tables}
use trackdown.Store.Events.Invariant.{IsConsistent, empty-IsConsistent}
use trackdown.Store.Events.Others.{SameIssues-IsConsistent}
use trackdown.Store.Events.Retention.{delete_old_events-IsConsistent}
use trackdown.Store.Kept.Consistent.{IsConsistent-IsKept}
use trackdown.Command.{run_once}
use trackdown.Command.Routes.{Setting}
use trackdown.Command.System.Deliveries.{free-IsInvariant}
use trackdown.Command.System.{State, Reach, session_of, IsInvariant, Reach_keeps}

module _ {L F J W : Type 0} (setting : Setting L F J) (notifier : Notifier W) (retention : ℤ) where
  IsConsistent-IsInvariant : IsInvariant notifier retention IsConsistent
  unfolding run_once
  IsConsistent-IsInvariant =
      free-IsInvariant IsConsistent
        (λ t outbox seq c. SameIssues-IsConsistent t _ (refl, refl, refl) c) notifier retention
        IsConsistent-IsKept (λ zone s c. delete_old_events-IsConsistent zone retention s c)

  -- However requests, deliveries, retries, retention and failures of the database follow each other,
  -- every state that the program reaches from an empty database has a consistent one: no event is
  -- stored twice in a project, no two issues of a project have one fingerprint, issues have rising
  -- ids, events link to ids that were given out, and no issue has more events than it counts.
  pub Reach-IsConsistent :
      {st st' : State L F W}
      → (session_of st).tables ≡ empty_tables
      → Reach setting notifier retention st st'
      → IsConsistent (session_of st').tables
  Reach-IsConsistent empty r =
      Reach_keeps setting notifier retention IsConsistent IsConsistent-IsInvariant
        (subst IsConsistent (sym empty) empty-IsConsistent) r
