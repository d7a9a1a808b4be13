-- ===== src/Ratelimit/Rate.antt =====
-- How many requests of one key `Limiter.Allow` grants over time.
use trackdown.Prelude.{
  ℕ, ◌+◌, ◌-◌, ◌*◌, ◌≤◌, ◌≡◌, refl, ap, ◌∙◌, Text, not, some, List, [], ◌∷◌, if◌then◌else◌, ltb, ℤ,
  pos, ◌+ℤ◌, ◌-ℤ◌, ltb_ℤ, arith, find-update, Bool-cases, inl, inr,
}
use native.Mathlib.Nat.{add-mul}
use trackdown.Store.Types.{Time}
use trackdown.Ratelimit.{
  Bucket, Limiter, allow, allow_found, allow_known, refill, has_key, find_bucket, put_bucket,
  left_over,
}

-- the calls for one key at the times listed: how many were granted, and the limiter after them
unfoldable pub granted : Text → List Time → Limiter → ℕ × Limiter
unfolding allow
granted key [] l = (0, l)
granted key (now ∷ times) l =
    let (permitted, l') = allow key now l in
    let (n, l'') = granted key times l' in ((if permitted then n + 1 else n), l'')

-- the times do not run backwards, from `start` to `end`
unfoldable pub IsTimeline : Time → List Time → Time → Type 0
IsTimeline start [] end = start ≤ end
IsTimeline start (now ∷ times) end = (start ≤ now) × IsTimeline now times end

IsTimeline-le :
    (start : Time) (times : List Time) (end : Time) → IsTimeline start times end → start ≤ end
unfolding IsTimeline
IsTimeline-le start [] end h = h
IsTimeline-le start (now ∷ times) end h = omega (arith, h.0, IsTimeline-le now times end h.1)

mul_split :
    (s now end r : ℕ) → s ≤ now → now ≤ end → (end - s) * r ≡ (now - s) * r + (end - now) * r
mul_split s now end r h k = ap (λ x. x * r) (omega arith) ∙ add-mul (now - s) (end - now) r

-- A bucket that holds `n` units is refilled to `m` of them, no more than came in.
refill_pos :
    (now : Time) (l : Limiter) (n : ℕ) (seen : Time)
    → (m : ℕ) × (refill now l (record { tokens = pos n; last_seen = seen }) ≡ pos m)
      × (m ≤ n + (now - seen) * l.rate)
unfolding refill ◌+ℤ◌
refill_pos now l n seen = elim (Bool-cases (ltb l.burst (n + (now - seen) * l.rate))) [
  | inl more ↦ (l.burst, ground arith, ground arith)
  | inr less ↦ (n + (now - seen) * l.rate, ground arith, omega arith)
]

find_bucket-allow_known :
    (key : Text) (now : Time) (l : Limiter) (tokens : ℤ) (k : Text) (b : Bucket)
    → find_bucket key l ≡ some (k, b)
    → find_bucket key (allow_known key now l tokens).1 ≡ some (k, left_over now l tokens)
find_bucket-allow_known key now l tokens k b old =
    find-update (has_key key) (put_bucket (left_over now l tokens)) l.buckets
      (λ x. unfold has_key in refl)
    ∙ rw old refl

allow_refilled :
    (key : Text) (now : Time) (l : Limiter) (k : Text) (b : Bucket) (m : ℕ)
    → find_bucket key l ≡ some (k, b)
    → refill now l b ≡ pos m
    → allow key now l ≡ allow_known key now l (pos m)
unfolding allow
allow_refilled key now l k b m old refilled =
    ap (allow_found key now l) old ∙ ap (allow_known key now l) refilled

-- what is left of `m` units after a call
abbrev remaining : Limiter → ℕ → ℕ
remaining l m = if ltb m l.unit then m else m - l.unit

left_over_pos :
    (now : Time) (l : Limiter) (m : ℕ)
    → left_over now l (pos m) ≡ record { tokens = pos (remaining l m); last_seen = now }
unfolding ◌-ℤ◌
left_over_pos now l m = ground arith

-- However the requests of a known key are spread over time, those granted cost no more than the
-- bucket held at first and what was added until the end of the run. Hence a burst is never exceeded
-- by more than the rate allows; a request of another key, whose sweep may drop the bucket, is not part
-- of the run.
pub granted_bound :
    (key : Text) (times : List Time) (l : Limiter) (end : Time) (k : Text) (n : ℕ) (seen : Time)
    → find_bucket key l ≡ some (k, record { tokens = pos n; last_seen = seen })
    → IsTimeline seen times end
    → (granted key times l).0 * l.unit ≤ n + (end - seen) * l.rate
unfolding granted IsTimeline
granted_bound key [] l end k n seen old ordered = omega arith
granted_bound key (now ∷ times) l end k n seen old ordered =
    let (m, refilled, paid) = refill_pos now l n seen in
    let l' = (allow_known key now l (pos m)).1 in
    let step = allow_refilled key now l k _ m old refilled in
    let known =
      find_bucket-allow_known key now l (pos m) k _ old
      ∙ ap (λ b. some (k, b)) (left_over_pos now l m) in
    let later = granted_bound key times l' end k (remaining l m) now known ordered.1 in
    rw step (spent m (granted key times l').0 later paid)
  where
    spent :
        (m g : ℕ)
        → g * l.unit ≤ remaining l m + (end - now) * l.rate
        → m ≤ n + (now - seen) * l.rate
        → (if not (ltb_ℤ (pos m) (pos l.unit)) then g + 1 else g) * l.unit
          ≤ n + (end - seen) * l.rate
    spent m g later paid = ground (
      arith,
      mul_split seen now end l.rate ordered.0 (IsTimeline-le now times end ordered.1),
      add-mul g 1 l.unit,
    )
