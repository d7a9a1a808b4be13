-- ===== src/Examples/Access.antt =====
-- The authentication of the management endpoints.
use trackdown.Prelude.{Text, codes, Option, some, [], if◌then◌else◌, str_eq}
use trackdown.Ratelimit.{Limiter, allow}
use trackdown.Auth.{Config, FailedAttemptLimiter, env_password}

abbrev admin : Config
admin = record { username = codes "admin"; password = codes "secret" }

abbrev attempts : Option (FailedAttemptLimiter Limiter)
attempts = some (record { allow = allow })

abbrev get_env : Text → Text
get_env name = if str_eq name env_password then codes "secret" else []

abbrev guess : Option (Text × Text)
guess = some (codes "admin", codes "guess")

abbrev right : Option (Text × Text)
right = some (codes "admin", codes "secret")
