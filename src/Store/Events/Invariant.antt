-- ===== src/Store/Events/Invariant.antt =====
-- What holds of the events and issues between two operations, and that `SaveEvent` keeps it.
use trackdown.Prelude.{
  ℕ, ◌+◌, ◌≤◌, ◌<◌, ◌≡◌, refl, Text, Bool, true, false, Option, none, some, List, [], ◌∷◌, ◌++◌,
  arith, Option-cases, Bool-cases, inl, inr, ◌==◌, find, find-none, count_where, count_where-append,
  All, All-append, All-map, All-update, All-both, All-find, Pairs, Pairs-append, Pairs-update,
}
use trackdown.Protocol.Types.{Event}
use trackdown.Store.Types.{Time, IssueRow, EventRow, Tables, empty_tables}
use trackdown.Store.Query.{Session}
use trackdown.Store.Query.Laws.{Result-cases}
use trackdown.Store.Events.{
  is_event, has_fingerprint, find_event, find_issue, seen_again, new_issue, upsert_issue, new_event,
  save_event, refers_to,
}
use trackdown.Store.Events.Save.{described, with_event, save_event_atomic, save_event_returns}

-- the event belongs to the issue
abbrev pub links : ℕ → EventRow → Bool
links id e = refers_to id e.issue_id

-- UNIQUE(project_id, event_id)
abbrev pub OtherKey : EventRow → EventRow → Type 0
OtherKey a b = is_event b.project_id b.event_id a ≡ false

-- UNIQUE(project_id, fingerprint)
abbrev pub OtherIssue : IssueRow → IssueRow → Type 0
OtherIssue a b = has_fingerprint b.project_id b.fingerprint a ≡ false

abbrev pub EarlierIssue : IssueRow → IssueRow → Type 0
EarlierIssue a b = a.id < b.id

abbrev pub LinksBelow : ℕ → Option ℕ → Type 0
LinksBelow seq none = Unit
LinksBelow seq (some id) = id ≤ seq

pub record IsConsistent (t : Tables) : Type 0 where
  pub event_keys : Pairs OtherKey t.events
  pub issue_keys : Pairs OtherIssue t.issues
  pub issue_order : Pairs EarlierIssue t.issues
  pub issue_ids : All (λ i. i.id ≤ t.issue_seq) t.issues
  pub event_links : All (λ e. LinksBelow t.issue_seq e.issue_id) t.events
  -- retention deletes events and not the count
  pub counted : All (λ i. count_where (links i.id) t.events ≤ i.event_count) t.issues

pub empty-IsConsistent : IsConsistent empty_tables
empty-IsConsistent = record {
  event_keys = tt;
  issue_keys = tt;
  issue_order = tt;
  issue_ids = tt;
  event_links = tt;
  counted = tt;
}

-- no event links to an id that was not given out
unlinked :
    (seq id : ℕ) (es : List EventRow)
    → seq < id
    → All (λ e. LinksBelow seq e.issue_id) es
    → count_where (links id) es ≡ 0
unfolding count_where
unlinked seq id [] h k = refl
unlinked seq id (e ∷ es) h k = ground (arith, unlinked seq id es h k.1, k.0)

-- the look-up by fingerprint is the only row of its id
only_row :
    (p : IssueRow → Bool) (is : List IssueRow) (i : IssueRow)
    → Pairs EarlierIssue is
    → find p is ≡ some i
    → All (λ j. p j ≡ false → (i.id == j.id) ≡ false) is
unfolding find
only_row p [] i h e = tt
only_row p (x ∷ is) i h e = elim (Bool-cases (p x)) [
  | inl t ↦ (λ f. ground arith, All-map is (λ j lt _. ground arith) h.0)
  | inr f ↦ (
    λ _. ground (arith, All-find (EarlierIssue x) p is h.0 (rw f at e)),
    only_row p is i h.1 (rw f at e),
  )
]

LinksBelow-suc : (seq : ℕ) (o : Option ℕ) → LinksBelow seq o → LinksBelow (seq + 1) o
LinksBelow-suc seq none h = tt
LinksBelow-suc seq (some id) h = omega arith

-- one more event adds at most one to a count, and nothing to that of an issue it does not link to
count-append_le :
    (id j : ℕ) (es : List EventRow) (e : EventRow)
    → e.issue_id ≡ some j
    → count_where (links id) (es ++ e ∷ []) ≤ count_where (links id) es + 1
unfolding count_where
count-append_le id j es e h = rw count_where-append (ground arith)

count-append_other :
    (id j : ℕ) (es : List EventRow) (e : EventRow)
    → e.issue_id ≡ some j
    → (j == id) ≡ false
    → count_where (links id) (es ++ e ∷ []) ≡ count_where (links id) es
unfolding count_where
count-append_other id j es e h k = rw count_where-append (rw h (rw k (omega arith)))

module _ (project_id : Text) (ev : Event) (raw fingerprint title : Text) (t : Tables) (now : Time)
    (c : IsConsistent t) (fresh : find_event project_id ev.event_id t ≡ none) where
  -- a new event of a new issue
  with_new_issue :
      find_issue project_id fingerprint t ≡ none
      → IsConsistent (with_event project_id ev raw fingerprint title t now)
  unfolding upsert_issue new_issue new_event count_where
  with_new_issue new =
      let e = new_event (t.event_seq + 1) project_id (t.issue_seq + 1) ev raw now in
      rw new (record {
        event_keys = Pairs-append OtherKey t.events _ c.event_keys (find-none _ t.events fresh);
        issue_keys = Pairs-append OtherIssue t.issues _ c.issue_keys (find-none _ t.issues new);
        issue_order =
            Pairs-append EarlierIssue t.issues _ c.issue_order
              (All-map t.issues (λ i h. omega arith) c.issue_ids);
        issue_ids =
            All-append (λ i. i.id ≤ t.issue_seq + 1) (λ _. true) t.issues _
              (All-map t.issues (λ i h. omega arith) c.issue_ids) (omega arith, tt);
        event_links =
            All-append (λ e. LinksBelow (t.issue_seq + 1) e.issue_id) (λ _. true) t.events _
              (All-map t.events (λ e. LinksBelow-suc t.issue_seq e.issue_id) c.event_links)
              (omega arith, tt);
        counted =
            All-append (λ i. count_where (links i.id) (t.events ++ e ∷ []) ≤ i.event_count)
              (λ _. true) t.issues _
              (All-map t.issues
                (λ i h.
                  omega (
                    arith,
                    count-append_other i.id (t.issue_seq + 1) t.events e refl (ground arith),
                  ))
                (All-both (λ i. i.id ≤ t.issue_seq)
                  (λ i. count_where (links i.id) t.events ≤ i.event_count) t.issues c.issue_ids
                  c.counted))
              (
                omega (
                  arith,
                  count-append_le (t.issue_seq + 1) (t.issue_seq + 1) t.events e refl,
                  unlinked t.issue_seq (t.issue_seq + 1) t.events (omega arith) c.event_links,
                ),
                tt,
              );
      })

  with_known_issue :
      (i : IssueRow)
      → find_issue project_id fingerprint t ≡ some i
      → IsConsistent (with_event project_id ev raw fingerprint title t now)
  unfolding upsert_issue seen_again new_event count_where has_fingerprint
  with_known_issue i old =
      let e = new_event (t.event_seq + 1) project_id i.id ev raw now in
      rw old (record {
        event_keys = Pairs-append OtherKey t.events _ c.event_keys (find-none _ t.events fresh);
        issue_keys = Pairs-update OtherIssue _ _ t.issues (λ x y r. r) (λ x y r. r) c.issue_keys;
        issue_order =
            Pairs-update EarlierIssue _ _ t.issues (λ x y r. r) (λ x y r. r) c.issue_order;
        issue_ids = All-update _ _ t.issues (λ x _ h. h) (λ x _ h. h) c.issue_ids;
        event_links =
            All-append (λ e. LinksBelow t.issue_seq e.issue_id) (λ _. true) t.events _ c.event_links
              (All-find (λ i. i.id ≤ t.issue_seq) _ t.issues c.issue_ids old, tt);
        counted =
            All-update (has_fingerprint project_id fingerprint) (seen_again now) t.issues
              (λ x _ h. omega (arith, h.0, count-append_le x.id i.id t.events e refl))
              (λ x miss h. rw (count-append_other x.id i.id t.events e refl (h.1 miss)) h.0)
              (All-both (λ i. count_where (links i.id) t.events ≤ i.event_count)
                (λ j. has_fingerprint project_id fingerprint j ≡ false → (i.id == j.id) ≡ false)
                t.issues c.counted
                (only_row (has_fingerprint project_id fingerprint) t.issues i c.issue_order old));
      })

pub described-IsConsistent :
    (project_id : Text) (ev : Event) (raw fingerprint title : Text) (t : Tables) (now : Time)
    → IsConsistent t
    → IsConsistent (described project_id ev raw fingerprint title t now).1
described-IsConsistent project_id ev raw fingerprint title t now c =
    elim (Option-cases (find_event project_id ev.event_id t)) [
      | inr (e, old) ↦ rw old c
      | inl fresh ↦ rw fresh (elim (Option-cases (find_issue project_id fingerprint t)) [
        | inl new ↦ with_new_issue project_id ev raw fingerprint title t now c fresh new
        | inr (i, old) ↦ with_known_issue project_id ev raw fingerprint title t now c fresh i old
      ])
    ]

-- `SaveEvent` keeps the database consistent, whatever statements fail.
pub save_event-IsConsistent :
    (project_id : Text) (ev : Event) (raw fingerprint title : Text) (s : Session)
    → IsConsistent s.tables
    → IsConsistent (save_event project_id ev raw fingerprint title s).1.tables
save_event-IsConsistent project_id ev raw fingerprint title s c =
    elim (Result-cases (save_event project_id ev raw fingerprint title s).0) [
      | inl (v, returned) ↦
          rw (save_event_returns project_id ev raw fingerprint title s returned).0
            (described-IsConsistent project_id ev raw fingerprint title s.tables s.now c)
      | inr (e, failed) ↦ rw (save_event_atomic project_id ev raw fingerprint title s failed) c
    ]
