-- ===== src/Command/Start/Guesses.antt =====
-- Guesses of the password, behind the limiter of failed attempts that `serve` sets.
use trackdown.Prelude.{
  ℕ, ◌+◌, ◌-◌, ◌*◌, ◌≤◌, ◌≡◌, ◌≢◌, refl, Text, Bool, true, false, Option, some, List, [], ◌∷◌,
  if◌then◌else◌, pos, arith, find, str_eq_refl, All, map,
}
use trackdown.Store.Types.{Time, second}
use trackdown.Ratelimit.{Limiter, allow, find_bucket, has_key, new_limiter}
use trackdown.Ratelimit.Rate.{granted, granted_bound, IsTimeline}
use trackdown.Auth.{
  Config, FailedAttemptLimiter, Verdict, passed, too_many_attempts, unauthorized, require,
}
use trackdown.Auth.Laws.{require_passed, matches_iff}
use trackdown.Command.Start.{auth_limiter}

-- the limiter that `serve` hands to the middleware
abbrev pub attempt_limiter : FailedAttemptLimiter Limiter
attempt_limiter = record { allow = allow }

-- what a request brings, and when it comes
abbrev pub Guess : Type 0
Guess = Option (Text × Text) × Time

abbrev pub times_of : List Guess → List Time
times_of guesses = map (λ (g : Guess). g.1) guesses

abbrev pub is_unauthorized : Verdict → Bool
is_unauthorized unauthorized = true
is_unauthorized passed = false
is_unauthorized too_many_attempts = false

module _ (cfg : Config) (ip : Text) where
  abbrev pub judge : Guess → Limiter → Verdict × Limiter
  judge (given, now) l = require cfg (some attempt_limiter) given ip now l

  -- the requests from one address: how many are answered 401, and the limiter after them
  unfoldable pub judge_all : List Guess → Limiter → ℕ × Limiter
  unfolding require
  judge_all [] l = (0, l)
  judge_all (g ∷ guesses) l =
      let (v, l') = judge g l in
      let (n, l'') = judge_all guesses l' in ((if is_unauthorized v then n + 1 else n), l'')

  -- no guess is right
  abbrev pub AllWrong : List Guess → Type 0
  AllWrong guesses = All (λ (g : Guess). g.0 ≢ some (cfg.username, cfg.password)) guesses

  require_wrong :
      (given : Option (Text × Text)) (now : Time) (l : Limiter)
      → given ≢ some (cfg.username, cfg.password)
      → require cfg (some attempt_limiter) given ip now l
        ≡ ((if (allow ip now l).0 then unauthorized else too_many_attempts), (allow ip now l).1)
  unfolding require
  require_wrong given now l wrong = ground (arith, matches_iff cfg given)

  counted :
      (b : Bool) (r : ℕ × Limiter)
      → ◌≡◌ {A = ℕ × Limiter}
          (
            (if is_unauthorized (if b then unauthorized else too_many_attempts)
                then r.0 + 1
                else r.0),
            r.1,
          )
          ((if b then r.0 + 1 else r.0), r.1)
  counted true r = refl
  counted false r = refl

  judge_all-granted :
      (guesses : List Guess) (l : Limiter)
      → AllWrong guesses
      → judge_all guesses l ≡ granted ip (times_of guesses) l
  unfolding judge_all granted
  judge_all-granted [] l wrong = refl
  judge_all-granted ((given, now) ∷ guesses) l wrong =
      let ih = judge_all-granted guesses (allow ip now l).1 wrong.1 in
      rw (require_wrong given now l wrong.0, ih)
        (counted (allow ip now l).0 (granted ip (times_of guesses) (allow ip now l).1))

  -- the limiter after the first attempt, of which four are left
  abbrev first : Time → Limiter
  first now = record auth_limiter {
    buckets = (ip, record { tokens = pos (48 * second); last_seen = now }) ∷ [];
  }

  allow_first : (now : Time) → allow ip now auth_limiter ≡ (true, first now)
  unfolding allow auth_limiter new_limiter
  allow_first now = refl

  find_bucket-first :
      (now : Time)
      → find_bucket ip (first now)
        ≡ some (ip, record { tokens = pos (48 * second); last_seen = now })
  unfolding find has_key
  find_bucket-first now = rw (str_eq_refl ip) refl

  granted_fresh :
      (now : Time) (times : List Time) (end : Time)
      → IsTimeline now times end
      → (granted ip (now ∷ times) auth_limiter).0 * (12 * second) ≤ 5 * (12 * second) + (end - now)
  unfolding granted
  granted_fresh now times end ordered =
      let later =
        granted_bound ip times (first now) end ip (48 * second) now (find_bucket-first now)
          ordered in
      rw (allow_first now) (unfold auth_limiter new_limiter in omega (arith, later))

  -- However many wrong guesses come from one address, one in each 12 seconds and 5 more at most are
  -- answered 401; but the right guess passes, whatever came before it.
  pub judge_all_bound :
      (given : Option (Text × Text)) (start : Time) (guesses : List Guess) (end : Time)
      → AllWrong ((given, start) ∷ guesses)
      → IsTimeline start (times_of guesses) end
      → ((judge_all ((given, start) ∷ guesses) auth_limiter).0 * (12 * second)
          ≤ 5 * (12 * second) + (end - start))
        × ((judge
              (some (cfg.username, cfg.password), end)
              (judge_all ((given, start) ∷ guesses) auth_limiter).1).0
            ≡ passed)
  judge_all_bound given start guesses end wrong ordered = (
    rw (judge_all-granted ((given, start) ∷ guesses) auth_limiter wrong)
        (granted_fresh start (times_of guesses) end ordered),
    (require_passed cfg (some attempt_limiter) (some (cfg.username, cfg.password)) ip end
          (judge_all ((given, start) ∷ guesses) auth_limiter).1).0.1
        refl,
  )
