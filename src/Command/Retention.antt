-- ===== src/Command/Retention.antt =====
-- Which events retention removes.
pub mod Cutoff
use trackdown.Prelude.{
  ℕ, ◌+◌, ◌*◌, ◌^◌, ◌≤◌, ◌<◌, ◌≡◌, refl, sym, ap, ◌∙◌, subst, Bool, true, false, not, List, [], ◌∷◌,
  arith, All, ℤ, pos, ◌≤ℤ◌, neg_part, pos_part, ◌+ℤ◌, ◌-ℤ◌, ltb_ℤ, count_where, filter, length,
}
use trackdown.Prelude.Int64.{negation}
use trackdown.Store.Types.{Time, current_timestamp, EventRow, Tables}
use trackdown.Store.Outbox.{hour}
use trackdown.Store.Query.{Session, calm, execute}
use trackdown.Store.Events.{Zone, is_older, cutoff_of, delete_old_events}
use trackdown.Store.Events.Retention.{delete_old_events_lem, delete_old_events_keeps}
use trackdown.Command.{
  retention_of, deleted, gc, run_once, run_ticks, run_retention_loop, start_retention,
}
use trackdown.Command.Retention.Cutoff.{
  day, retention_of_exact, cutoff_of_exact, is_older_exact, cutoff_of_overflow, later_kept,
}

count_all :
    (p : EventRow → Bool) (es : List EventRow)
    → All (λ e. p e ≡ true) es
    → count_where p es ≡ length es
unfolding count_where
count_all p [] h = refl
count_all p (e ∷ es) h = ground (arith, count_all p es h.1)

filter_none :
    (p : EventRow → Bool) (es : List EventRow)
    → All (λ e. p e ≡ true) es
    → filter (λ e. not (p e)) es ≡ []
unfolding filter
filter_none p [] h = refl
filter_none p (e ∷ es) h = rw h.0 (filter_none p es h.1)

filter_same :
    (p q : EventRow → Bool) (es : List EventRow)
    → ((e : EventRow) → p e ≡ q e)
    → filter p es ≡ filter q es
unfolding filter
filter_same p q [] h = refl
filter_same p q (e ∷ es) h = rw (h e, filter_same p q es h) refl

not-not : (b : Bool) → not (not b) ≡ b
not-not true = refl
not-not false = refl

-- the zone of UTC, and those that are a fixed time ahead or behind
abbrev pub fixed : ℤ → Zone
fixed z x = z

module _ (d : ℕ) (positive : 0 < d) where
  gc_positive :
      (zone : Zone) (s : Session)
      → (gc zone (pos d) s).1 ≡ (delete_old_events zone (retention_of (pos d)) s).1
  unfolding gc
  gc_positive zone s = let above : ltb_ℤ (pos 0) (pos d) ≡ true = ground arith in rw above refl

  all_older :
      (zone : Zone) (now : Time) (events : List EventRow)
      → 106752 ≤ d
      → d ≤ 213503
      → ((x : ℤ) → neg_part (zone x) ≤ 23 * hour)
      → All (λ e. e.received_at ≤ now) events
      → All (λ e. is_older (cutoff_of zone now (retention_of (pos d))) e ≡ true) events
  all_older zone now [] low high behind past = tt
  all_older zone now (e ∷ events) low high behind past = (
    cutoff_of_overflow now d zone e low high behind past.0,
    all_older zone now events low high behind past.1,
  )

  -- With `-retention-days` from 106752 to 213503 the product of nanoseconds leaves the 64 bits. If
  -- no statement fails, `gc` then removes every event that was received up to now, in any zone at
  -- most 23 hours behind UTC.
  pub gc_overflow :
      (zone : Zone) (t : Tables) (now : Time)
      → 106752 ≤ d
      → d ≤ 213503
      → ((x : ℤ) → neg_part (zone x) ≤ 23 * hour)
      → All (λ e. e.received_at ≤ now) t.events
      → gc zone (pos d) (calm t now)
        ≡ (deleted (length t.events), calm (record t { events = [] }) now)
  unfolding gc delete_old_events execute
  gc_overflow zone t now low high behind past =
      let above : ltb_ℤ (pos 0) (pos d) ≡ true = ground arith in
      let old = is_older (cutoff_of zone now (retention_of (pos d))) in
      let older = all_older zone now t.events low high behind past in
      rw (above, count_all old t.events older, filter_none old t.events older) refl

  module _ (small : d ≤ 106751) where
    -- the rows that one run keeps
    is_kept :
        (zone : Zone) (now : Time) (e : EventRow)
        → is_older (cutoff_of zone now (retention_of (pos d))) e
          ≡ not (
              ltb_ℤ
                (pos now +ℤ zone (pos now -ℤ pos (d * day)))
                (pos (current_timestamp e.received_at + d * day)))
    is_kept zone now e =
        ap (λ r. is_older (cutoff_of zone now r) e) (retention_of_exact d small)
        ∙ ap (λ c. is_older c e) (cutoff_of_exact now (d * day) zone (omega arith))
        ∙ is_older_exact now (d * day) (zone (pos now -ℤ pos (d * day))) e

    -- If no statement fails, and the local time is a fixed time ahead of UTC or behind it, `gc` with
    -- `-retention-days` from 1 to 106751 keeps exactly the events that were received less than so
    -- many days before the local date and time, taken as if it were one of UTC; the time of an event
    -- counts in whole seconds. So in a zone ahead of UTC, events go that are younger than the days,
    -- by up to what the zone is ahead.
    pub gc-delete_old_events :
        (z : ℤ) (t : Tables) (now : Time)
        → (gc (fixed z) (pos d) (calm t now)).1.tables.events
          ≡ filter
              (λ e. ltb_ℤ (pos now +ℤ z) (pos (current_timestamp e.received_at + d * day)))
              t.events
    unfolding delete_old_events execute
    gc-delete_old_events z t now =
        ap (λ (s : Session). s.tables.events) (gc_positive (fixed z) (calm t now))
        ∙ filter_same _ _ t.events (λ e. ap not (is_kept (fixed z) now e) ∙ not-not _)

    module _ (zone : Zone) (east : ℕ) (ahead : (x : ℤ) → pos_part (zone x) ≤ east)
        (p : EventRow → Bool) (latest : Time)
        (recent : (e : EventRow)
          → p e ≡ true
          → latest + east < current_timestamp e.received_at + d * day) where
      recent_kept :
          (now : Time) (e : EventRow)
          → now ≤ latest
          → p e ≡ true
          → is_older (cutoff_of zone now (retention_of (pos d))) e ≡ false
      recent_kept now e before h =
          is_kept zone now e
          ∙ later_kept (d * day) now (zone (pos now -ℤ pos (d * day))) e before (ahead _)
              (recent e h)

      run_once-calm :
          (t : Tables) (now : Time)
          → now ≤ latest
          → (t' : Tables) × (run_once zone (retention_of (pos d)) (calm t now) ≡ calm t' now)
            × (count_where p t'.events ≡ count_where p t.events)
      unfolding run_once
      run_once-calm t now before =
          let (n, events, done, total, young) =
            delete_old_events_lem zone (retention_of (pos d)) t now in
          (
            record t { events = events },
            ap (λ r. r.1) done,
            sym (ap (λ r. count_where p r.1.tables.events) done)
                ∙ delete_old_events_keeps zone (retention_of (pos d)) t now p
                    (λ e. recent_kept now e before),
          )

      run_ticks-keeps :
          (ticks : List Time) (t : Tables) (now : Time)
          → All (λ x. x ≤ latest) ticks
          → count_where p (run_ticks zone (retention_of (pos d)) ticks (calm t now)).tables.events
            ≡ count_where p t.events
      unfolding run_ticks
      run_ticks-keeps [] t now h = refl
      run_ticks-keeps (x ∷ ticks) t now h =
          let (t', done, same) = run_once-calm t x h.0 in
          ap (λ s. count_where p (run_ticks zone (retention_of (pos d)) ticks s).tables.events) done
          ∙ run_ticks-keeps ticks t' x h.1
          ∙ same

      -- If no statement fails, the loop that `serve` starts with `-retention-days` from 1 to 106751,
      -- where the local time is never more than `east` ahead of UTC, removes no event that was
      -- received, by whole seconds, within so many days less `east` before its latest tick. Where the
      -- local time is never ahead of UTC, that is within so many days.
      pub start_retention-delete_old_events :
          (ticks : List Time) (t : Tables) (now : Time)
          → now ≤ latest
          → All (λ x. x ≤ latest) ticks
          → count_where p (start_retention zone (pos d) ticks (calm t now)).tables.events
            ≡ count_where p t.events
      unfolding start_retention run_retention_loop
      start_retention-delete_old_events ticks t now before h =
          let above : ltb_ℤ (pos 0) (pos d) ≡ true = ground arith in
          let (t', done, same) = run_once-calm t now before in
          rw above (
            ap (λ s. count_where p (run_ticks zone (retention_of (pos d)) ticks s).tables.events)
              done
            ∙ run_ticks-keeps ticks t' now h
            ∙ same)
