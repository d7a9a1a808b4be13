-- ===== src/Auth.antt =====
-- internal/auth/auth.go: HTTP Basic authentication of the management endpoints, with a limiter of
-- failed attempts. `Request.BasicAuth` and `net.SplitHostPort` have run: what they found is given.
pub mod Laws
use trackdown.Prelude.{
  Text, codes, Bool, true, false, ◌&&◌, Option, none, some, is_empty, if◌then◌else◌, str_eq,
}
use trackdown.Store.Types.{Time}

-- `Config`
pub record Config : Type 0 where
  pub username : Text
  pub password : Text

-- `EnvUser`
abbrev pub env_user : Text
env_user = codes "TRACKDOWN_ADMIN_USER"

-- `EnvPassword`
abbrev pub env_password : Text
env_password = codes "TRACKDOWN_ADMIN_PASSWORD"

-- `FromEnv`, from what `os.Getenv` gives for a name; `none` is the error
unfoldable pub from_env : (Text → Text) → Option Config
from_env get_env =
    let user = get_env env_user in
    let password = get_env env_password in
    if is_empty password
    then none
    else some
        (record { username = if is_empty user then codes "admin" else user; password = password })

-- `FailedAttemptLimiter`, as what a call of `Allow` at a time does to the limiter's own state
pub record FailedAttemptLimiter (L : Type 0) : Type 0 where
  pub allow : Text → Time → L → Bool × L

-- What `Require` does with a request: it passes it on, or answers 429 or 401.
pub data Verdict : Type 0 where
  passed too_many_attempts unauthorized : Verdict

-- `credentialsMatch`; the time that the comparison takes is not modelled
unfoldable pub credentials_match : Config → Text → Text → Bool
credentials_match cfg user pass = str_eq user cfg.username && str_eq pass cfg.password

-- the host that `net.SplitHostPort` found in the address, or else the address
unfoldable pub peer_ip : Text → Option Text → Text
peer_ip remote_addr none = remote_addr
peer_ip remote_addr (some host) = host

abbrev pub matches : Config → Option (Text × Text) → Bool
matches cfg none = false
matches cfg (some (user, pass)) = credentials_match cfg user pass

module _ {L : Type 0} (cfg : Config) where
  abbrev pub count_failure : Option (FailedAttemptLimiter L) → Text → Time → L → Verdict × L
  count_failure none ip now l = (unauthorized, l)
  count_failure (some limiter) ip now l =
      let (permitted, l') = limiter.allow ip now l in
      (if permitted then unauthorized else too_many_attempts, l')

  -- `Require`, from the credentials of the request, if it has any
  unfoldable pub require :
      Option (FailedAttemptLimiter L) → Option (Text × Text) → Text → Time → L → Verdict × L
  unfolding credentials_match
  require limiter given ip now l =
      let failed = count_failure limiter ip now l in
      if matches cfg given then (passed, l) else failed
