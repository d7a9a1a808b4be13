-- ===== src/Ratelimit.antt =====
-- internal/ratelimit/limiter.go: the token bucket per key. The source keeps fractions of a token
-- in a float64. Here a bucket counts units, `unit` of them to a token, and `rate` of them come in
-- per nanosecond, so the model is exact where the float64 rounds. Time never runs backwards.
pub mod Laws
pub mod Rate
use trackdown.Prelude.{
  ℕ, ◌+◌, ◌-◌, ◌*◌, ◌^◌, Text, Bool, true, false, not, Option, none, some, List, [], ◌∷◌,
  if◌then◌else◌, ltb, leb, length, filter, find, update, str_eq, ℤ, pos, ◌+ℤ◌, ◌-ℤ◌, ltb_ℤ,
}
use trackdown.Store.Types.{Time, second}

-- `bucket`
pub record Bucket : Type 0 where
  pub tokens : ℤ
  pub last_seen : Time

-- `Limiter`, the map as an association list. The lock makes each call one step.
pub record Limiter : Type 0 where
  pub buckets : List (Text × Bucket)
  pub unit : ℕ
  pub rate : ℕ
  pub burst : ℕ
  pub stale_after : Time
  pub sweep_at_size : ℕ

-- `defaultStaleAfter`, 10 minutes
abbrev pub default_stale_after : Time
default_stale_after = 600 * second

abbrev pub default_sweep_at_size : ℕ
default_sweep_at_size = 1000

-- `New`, with the burst in tokens
unfoldable pub new_limiter : ℕ → ℕ → ℕ → Limiter
new_limiter unit rate burst = record {
  buckets = [];
  unit = unit;
  rate = rate;
  burst = burst * unit;
  stale_after = default_stale_after;
  sweep_at_size = default_sweep_at_size;
}

unfoldable pub has_key : Text → Text × Bucket → Bool
has_key key (k, b) = str_eq k key

abbrev pub find_bucket : Text → Limiter → Option (Text × Bucket)
find_bucket key l = find (has_key key) l.buckets

unfoldable pub is_fresh : Time → Limiter → Text × Bucket → Bool
is_fresh now l (k, b) = leb (now - b.last_seen) l.stale_after

-- `sweepLocked`
unfoldable pub sweep : Time → Limiter → Limiter
unfolding is_fresh filter
sweep now l =
    if ltb (length l.buckets) l.sweep_at_size
    then l
    else record l { buckets = filter (is_fresh now l) l.buckets }

-- the tokens after a refill, at most the burst
unfoldable pub refill : Time → Limiter → Bucket → ℤ
refill now l b =
    let grown = b.tokens +ℤ pos ((now - b.last_seen) * l.rate) in
    if ltb_ℤ (pos l.burst) grown then pos l.burst else grown

abbrev pub put_bucket : Bucket → Text × Bucket → Text × Bucket
put_bucket b (k, old) = (k, b)

-- the bucket after a refill to `tokens`, less the token of the call if there is one
abbrev pub left_over : Time → Limiter → ℤ → Bucket
left_over now l tokens = record {
  tokens = if ltb_ℤ tokens (pos l.unit) then tokens else tokens -ℤ pos l.unit;
  last_seen = now;
}

abbrev pub allow_known : Text → Time → Limiter → ℤ → Bool × Limiter
allow_known key now l tokens = (
  not (ltb_ℤ tokens (pos l.unit)),
  record l { buckets = update (has_key key) (put_bucket (left_over now l tokens)) l.buckets },
)

-- a full bucket minus the token of the call
abbrev pub new_bucket : Limiter → Time → Bucket
new_bucket l now = record { tokens = pos l.burst -ℤ pos l.unit; last_seen = now }

abbrev pub allow_new : Text → Time → Limiter → Bool × Limiter
allow_new key now l = (true, record l { buckets = (key, new_bucket l now) ∷ l.buckets })

abbrev pub allow_found : Text → Time → Limiter → Option (Text × Bucket) → Bool × Limiter
allow_found key now l none = allow_new key now (sweep now l)
allow_found key now l (some (k, b)) = allow_known key now l (refill now l b)

-- `Allow`
unfoldable pub allow : Text → Time → Limiter → Bool × Limiter
unfolding sweep refill find update has_key ◌-ℤ◌
allow key now l = allow_found key now l (find_bucket key l)
