-- ===== src/Ratelimit/Laws.antt =====
-- What `Limiter.Allow` grants.
use trackdown.Prelude.{
  ℕ, ◌-◌, ◌*◌, ◌≤◌, ◌<◌, ◌≡◌, subst, sym, Text, true, false, Option, none, some, if◌then◌else◌, ltb,
  ℤ, pos, ◌+ℤ◌, ◌-ℤ◌, -ℤ_parts, ◌≤ℤ◌, ltb_ℤ, arith, All, All-update, All-filter, length, Bool-cases,
  inl, inr,
}
use trackdown.Store.Types.{Time}
use trackdown.Ratelimit.{
  Bucket, Limiter, allow, allow_known, allow_found, refill, sweep, has_key, find_bucket, is_fresh,
  put_bucket, left_over,
}

-- no bucket holds more than the burst
abbrev pub IsBounded : Limiter → Type 0
IsBounded l = All (λ (kb : Text × Bucket). kb.1.tokens ≤ℤ pos l.burst) l.buckets

refill_bounded : (now : Time) (l : Limiter) (b : Bucket) → refill now l b ≤ℤ pos l.burst
unfolding refill
refill_bounded now l b = ground arith

spend_bounded :
    (tokens : ℤ) (unit burst : ℕ)
    → tokens ≤ℤ pos burst
    → (if ltb_ℤ tokens (pos unit) then tokens else tokens -ℤ pos unit) ≤ℤ pos burst
spend_bounded tokens unit burst h = ground (arith, -ℤ_parts tokens (pos unit))

sweep-IsBounded : (now : Time) (l : Limiter) → IsBounded l → IsBounded (sweep now l)
unfolding sweep
sweep-IsBounded now l h = elim (Bool-cases (ltb (length l.buckets) l.sweep_at_size)) [
  | inl few ↦ rw few h
  | inr many ↦
      rw many (
        All-filter (λ (kb : Text × Bucket). kb.1.tokens ≤ℤ pos l.burst) (is_fresh now l) l.buckets
          h)
]

sweep_burst : (now : Time) (l : Limiter) → (sweep now l).burst ≡ l.burst
unfolding sweep
sweep_burst now l = ground arith

known-IsBounded :
    (key : Text) (now : Time) (l : Limiter) (tokens : ℤ)
    → tokens ≤ℤ pos l.burst
    → IsBounded l
    → IsBounded (allow_known key now l tokens).1
known-IsBounded key now l tokens h k =
    All-update (has_key key) (put_bucket (left_over now l tokens)) l.buckets
      (λ x _ _. spend_bounded tokens l.unit l.burst h) (λ x _ b. b) k

found-IsBounded :
    (key : Text) (now : Time) (l : Limiter) (o : Option (Text × Bucket))
    → IsBounded l
    → IsBounded (allow_found key now l o).1
found-IsBounded key now l none h = (
  ground (arith, -ℤ_parts (pos (sweep now l).burst) (pos (sweep now l).unit)),
  sweep-IsBounded now l h,
)
found-IsBounded key now l (some (k, b)) h =
    known-IsBounded key now l (refill now l b) (refill_bounded now l b) h

-- `Allow` leaves every bucket with at most the burst, whichever key and time it is called with.
pub allow-IsBounded :
    (key : Text) (now : Time) (l : Limiter) → IsBounded l → IsBounded (allow key now l).1
unfolding allow
allow-IsBounded key now l h = found-IsBounded key now l (find_bucket key l) h

-- A limiter whose burst is 0, as one started with a rate below a third of a request per second
-- is, refuses every request of a key it has seen, however long the key waits.
pub allow_starved :
    (key : Text) (now : Time) (l : Limiter) (k : Text) (b : Bucket)
    → l.burst ≡ 0
    → 0 < l.unit
    → find_bucket key l ≡ some (k, b)
    → (allow key now l).0 ≡ false
unfolding allow
allow_starved key now l k b none_allowed positive old =
    subst (λ o. (allow_found key now l o).0 ≡ false) (sym old)
      (ground (arith, refill_bounded now l b))

-- A key whose bucket had the time to fill up is granted its request, if the burst is a token.
pub allow_rested :
    (key : Text) (now : Time) (l : Limiter) (k : Text) (b : Bucket)
    → l.unit ≤ l.burst
    → find_bucket key l ≡ some (k, b)
    → pos l.burst ≤ℤ b.tokens +ℤ pos ((now - b.last_seen) * l.rate)
    → (allow key now l).0 ≡ true
unfolding allow refill
allow_rested key now l k b enough old full =
    subst (λ o. (allow_found key now l o).0 ≡ true) (sym old) (ground arith)
