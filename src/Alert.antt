-- ===== src/Alert.antt =====
-- internal/alert/alert.go: what a notification says, and the fan-out to several notifiers.
pub mod Smtp
pub mod Webhook
use trackdown.Prelude.{ℕ, Text, codes, Bool, Option, none, some, List, [], ◌∷◌, ◌++◌}
use trackdown.Store.Types.{Time}

-- `NotifyEvent`
pub record NotifyEvent : Type 0 where
  pub project_id : Text
  pub issue_id : ℕ
  pub title : Text
  pub level : Text
  pub is_new : Bool
  pub is_regression : Bool
  pub event_count : ℕ
  pub occurred_at : Time

-- A `Notifier`, as what it delivers does to the outside: `W` is the state of mail servers,
-- receivers and the network, and the result is the error, if there is one.
abbrev pub Notifier : Type 0 → Type 0
Notifier W = NotifyEvent → W → Option Text × W

-- The texts of `errors.Join`, one to a line.
abbrev pub join_lines : List Text → Text
join_lines [] = []
join_lines (e ∷ []) = e
join_lines (e ∷ f ∷ es) = e ++ codes "\n" ++ join_lines (f ∷ es)

-- `errors.Join`: nil if there is no error
unfoldable pub join_errors : List Text → Option Text
join_errors [] = none
join_errors (e ∷ es) = some (join_lines (e ∷ es))

abbrev add_error : Option Text → List Text → List Text
add_error none errs = errs
add_error (some e) errs = errs ++ (e ∷ [])

module _ {W : Type 0} where
  -- the loop of `MultiNotifier.Notify`, with the errors so far
  unfoldable pub notify_each : List (Notifier W) → NotifyEvent → List Text → W → List Text × W
  notify_each [] ev errs w = (errs, w)
  notify_each (n ∷ ns) ev errs w = let (e, w') = n ev w in notify_each ns ev (add_error e errs) w'

  -- `MultiNotifier.Notify`
  unfoldable pub multi_notify : List (Notifier W) → Notifier W
  unfolding notify_each
  multi_notify ns ev w = let (errs, w') = notify_each ns ev [] w in (join_errors errs, w')
