-- ===== src/Store/Events/Retention.antt =====
-- What `DeleteOldEvents` removes and keeps.
use trackdown.Prelude.{
  ℕ, ◌+◌, ◌≤◌, ◌≡◌, refl, ℤ, Bool, true, false, not, List, [], ◌∷◌, arith, length, filter,
  filter-All, count_where, All, All-map, All-filter, Pairs-filter,
}
use trackdown.Store.Types.{Time, EventRow, Tables}
use trackdown.Store.Query.{Session, ok, execute, calm}
use trackdown.Store.Query.Laws.{execute_keeps}
use trackdown.Store.Events.{Zone, is_older, cutoff_of, delete_old_events}
use trackdown.Store.Events.Invariant.{IsConsistent, OtherKey, links}

-- what a filter keeps and what it drops are all the rows
count-filter :
    (p : EventRow → Bool) (es : List EventRow)
    → count_where p es + length (filter (λ e. not (p e)) es) ≡ length es
unfolding count_where filter
count-filter p [] = refl
count-filter p (e ∷ es) = ground (arith, count-filter p es)

count-filter_le :
    (p q : EventRow → Bool) (es : List EventRow) → count_where p (filter q es) ≤ count_where p es
unfolding count_where filter
count-filter_le p q [] = omega arith
count-filter_le p q (e ∷ es) = ground (arith, count-filter_le p q es)

count-filter_kept :
    (p old : EventRow → Bool) (es : List EventRow)
    → ((e : EventRow) → p e ≡ true → old e ≡ false)
    → count_where p (filter (λ e. not (old e)) es) ≡ count_where p es
unfolding count_where filter
count-filter_kept p old [] kept = refl
count-filter_kept p old (e ∷ es) kept = ground (arith, kept e, count-filter_kept p old es kept)

module _ (zone : Zone) (older_than : ℤ) where
  -- The result is the number of rows that go; the rows that stay are later
  -- than the cutoff; and all else, the issues with their counts included, stays.
  pub delete_old_events_lem :
      (t : Tables) (now : Time)
      → (n : ℕ) × (events : List EventRow) × (delete_old_events zone older_than (calm t now)
          ≡ (ok n, calm (record t { events = events }) now))
        × (n + length events ≡ length t.events)
        × All (λ e. is_older (cutoff_of zone now older_than) e ≡ false) events
  unfolding delete_old_events execute
  delete_old_events_lem t now =
      let old = is_older (cutoff_of zone now older_than) in
      let kept = filter (λ e. not (old e)) t.events in
      (
        count_where old t.events,
        kept,
        refl,
        count-filter old t.events,
        All-map kept (λ e h. ground arith) (filter-All (λ e. not (old e)) t.events),
      )

  -- No row that is not older than the cutoff goes: such rows are counted as before.
  pub delete_old_events_keeps :
      (t : Tables) (now : Time) (p : EventRow → Bool)
      → ((e : EventRow) → p e ≡ true → is_older (cutoff_of zone now older_than) e ≡ false)
      → count_where p (delete_old_events zone older_than (calm t now)).1.tables.events
        ≡ count_where p t.events
  unfolding delete_old_events execute
  delete_old_events_keeps t now p recent =
      count-filter_kept p (is_older (cutoff_of zone now older_than)) t.events recent

  -- `DeleteOldEvents` keeps the database consistent, whether or not it fails.
  pub delete_old_events-IsConsistent :
      (s : Session)
      → IsConsistent s.tables
      → IsConsistent (delete_old_events zone older_than s).1.tables
  unfolding delete_old_events
  delete_old_events-IsConsistent s c =
      let young = λ (e : EventRow). not (is_older (cutoff_of zone s.now older_than) e) in
      execute_keeps IsConsistent _ s c (record {
        event_keys = Pairs-filter OtherKey young s.tables.events c.event_keys;
        issue_keys = c.issue_keys;
        issue_order = c.issue_order;
        issue_ids = c.issue_ids;
        event_links = All-filter _ young s.tables.events c.event_links;
        counted =
            All-map s.tables.issues
              (λ i h. omega (arith, count-filter_le (links i.id) young s.tables.events)) c.counted;
      })
