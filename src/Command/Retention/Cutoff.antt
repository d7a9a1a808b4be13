-- ===== src/Command/Retention/Cutoff.antt =====
-- Where the cutoff of the retention lies, in the local time of the zone.
use trackdown.Prelude.{
  ℕ, ◌+◌, ◌*◌, ◌^◌, ◌≤◌, ◌<◌, ◌≡◌, ap, true, false, not, arith, ℤ, pos, neg_part, pos_part, ◌+ℤ◌,
  ◌-ℤ◌, ltb_ℤ,
}
use trackdown.Prelude.Int64.{negation}
use trackdown.Store.Types.{Time, current_timestamp, EventRow}
use trackdown.Store.Outbox.{hour}
use trackdown.Store.Events.{Zone, is_older, cutoff_of}
use trackdown.Command.{retention_of}

abbrev pub day : Time
day = 24 * hour

pub retention_of_exact : (d : ℕ) → d ≤ 106751 → retention_of (pos d) ≡ pos (d * day)
unfolding retention_of
retention_of_exact d h = ground arith

negated : (now n : ℕ) → n < 2 ^ 63 → pos now +ℤ negation (pos n) ≡ pos now -ℤ pos n
unfolding ◌+ℤ◌ ◌-ℤ◌ negation
negated now n h = ground arith

-- without a 64-bit overflow, the cutoff is the time less the retention, plus what the zone is ahead
pub cutoff_of_exact :
    (now n : ℕ) (zone : Zone)
    → n < 2 ^ 63
    → cutoff_of zone now (pos n) ≡ (pos now -ℤ pos n) +ℤ zone (pos now -ℤ pos n)
unfolding cutoff_of
cutoff_of_exact now n zone h = ap (λ c. c +ℤ zone c) (negated now n h)

-- a row is older if it came so long before the local time
pub is_older_exact :
    (now n : ℕ) (z : ℤ) (e : EventRow)
    → is_older ((pos now -ℤ pos n) +ℤ z) e
      ≡ not (ltb_ℤ (pos now +ℤ z) (pos (current_timestamp e.received_at + n)))
unfolding ◌+ℤ◌ ◌-ℤ◌
is_older_exact now n z e = ground arith

-- a retention that overflows puts the cutoff after the present, by more than a zone is behind
overflowed :
    (now d : ℕ) (z : ℤ) (e : EventRow)
    → 106752 ≤ d
    → d ≤ 213503
    → neg_part z ≤ 23 * hour
    → e.received_at ≤ now
    → is_older ((pos now +ℤ negation (retention_of (pos d))) +ℤ z) e ≡ true
unfolding ◌+ℤ◌ negation retention_of current_timestamp
overflowed now d z e low high h past = ground arith

pub cutoff_of_overflow :
    (now d : ℕ) (zone : Zone) (e : EventRow)
    → 106752 ≤ d
    → d ≤ 213503
    → ((x : ℤ) → neg_part (zone x) ≤ 23 * hour)
    → e.received_at ≤ now
    → is_older (cutoff_of zone now (retention_of (pos d))) e ≡ true
unfolding cutoff_of
cutoff_of_overflow now d zone e low high behind past =
    overflowed now d (zone (pos now +ℤ negation (retention_of (pos d)))) e low high (behind _) past

-- a row of less than the retention before the local time is not older
pub later_kept :
    (n : ℕ) (now : Time) (z : ℤ) (e : EventRow) {latest east : ℕ}
    → now ≤ latest
    → pos_part z ≤ east
    → latest + east < current_timestamp e.received_at + n
    → not (ltb_ℤ (pos now +ℤ z) (pos (current_timestamp e.received_at + n))) ≡ false
unfolding ◌+ℤ◌
later_kept n now z e before ahead young = ground arith
