-- ===== src/Auth/Laws.antt =====
-- Who gets past the authentication.
use trackdown.Prelude.{◌≡◌, ◌≢◌, ◌↔◌, Text, true, Option, none, some, [], arith, str_eq_iff}
use trackdown.Store.Types.{Time}
use trackdown.Auth.{
  Config, from_env, FailedAttemptLimiter, passed, credentials_match, matches, count_failure,
  require,
}

pub matches_iff :
    (cfg : Config) (given : Option (Text × Text))
    → (matches cfg given ≡ true) ↔ (given ≡ some (cfg.username, cfg.password))
unfolding credentials_match
matches_iff cfg none = ground arith
matches_iff cfg (some (user, pass)) =
    ground (arith, str_eq_iff user cfg.username, str_eq_iff pass cfg.password)

count_failure_refuses :
    {L : Type 0} (cfg : Config) (limiter : Option (FailedAttemptLimiter L)) (ip : Text) (now : Time)
    (l : L)
    → (count_failure cfg limiter ip now l).0 ≢ passed
count_failure_refuses cfg none ip now l = λ e. cc
count_failure_refuses cfg (some limiter) ip now l = ground arith

-- A request passes exactly if it brings the configured user and password, and then it is not
-- counted against its address, however many attempts failed before.
pub require_passed :
    {L : Type 0} (cfg : Config) (limiter : Option (FailedAttemptLimiter L))
    (given : Option (Text × Text)) (ip : Text) (now : Time) (l : L)
    → let r = require cfg limiter given ip now l in
      ((r.0 ≡ passed) ↔ (given ≡ some (cfg.username, cfg.password))) × (r.0 ≡ passed → r.1 ≡ l)
unfolding require
require_passed cfg limiter given ip now l =
    ground (arith, matches_iff cfg given, count_failure_refuses cfg limiter ip now l)

pub from_env-password :
    (get_env : Text → Text) (cfg : Config) → from_env get_env ≡ some cfg → cfg.password ≢ []
unfolding from_env
from_env-password get_env cfg configured none_given = ground arith

-- With the credentials of the environment, no request passes without a password.
pub require-from_env :
    {L : Type 0} (get_env : Text → Text) (cfg : Config) (limiter : Option (FailedAttemptLimiter L))
    (user ip : Text) (now : Time) (l : L)
    → from_env get_env ≡ some cfg
    → (require cfg limiter (some (user, [])) ip now l).0 ≢ passed
unfolding from_env
require-from_env get_env cfg limiter user ip now l configured passes =
    from_env-password get_env cfg configured
      (ground (arith, (require_passed cfg limiter (some (user, [])) ip now l).0.0 passes))
