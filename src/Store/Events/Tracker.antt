-- ===== src/Store/Events/Tracker.antt =====
-- What `SaveEvent` promises, without rows, ids, titles and times: which events are known, and of each
-- fingerprint its status and count.
use trackdown.Prelude.{
  ℕ, ◌+◌, ◌≡◌, ◌≢◌, refl, ap, ap₂, ◌∙◌, Text, str_eq, str_eq_iff, str_eq_sound, Bool, false, ◌&&◌,
  ◌||◌, Option, none, some, List, [], ◌∷◌, arith, inl, inr, Bool-cases, Option-cases, is_some,
  if◌then◌else◌, find, ◌++◌,
}
use mathlib.Core.Option
use trackdown.Protocol.Types.{Event}
use trackdown.Store.Types.{
  IssueStatus, unresolved, resolved, ignored, Time, IssueRow, EventRow, Tables,
}
use trackdown.Store.Query.{calm}
use trackdown.Store.Events.{find_event, find_issue, save_event, upsert_issue, is_event, new_event}
use trackdown.Store.Events.Save.{is_resolved, save_event-calm}
use trackdown.Store.Events.Stored.{
  issue_after, seen_after, events-upsert_issue, find_issue-save_event, find_issue-save_event_other,
}

-- the abstract state
pub record Tracker : Type 0 where
  -- whether a project has an event of an id
  pub has_event : Text → Text → Bool
  -- the status and the count that a project has for a fingerprint
  pub issue : Text → Text → Option (IssueStatus × ℕ)

-- the issue after one more event
abbrev pub observed : Option (IssueStatus × ℕ) → IssueStatus × ℕ
observed none = (unresolved, 1)
observed (some (resolved, n)) = (unresolved, n + 1)
observed (some (unresolved, n)) = (unresolved, n + 1)
observed (some (ignored, n)) = (ignored, n + 1)

-- The abstract operation: a known event changes nothing; a new one is known from now on, and its
-- fingerprint's issue has observed it.
abbrev pub observe_new : Text → Text → Text → Tracker → Tracker
observe_new project_id event_id fingerprint a = record {
  has_event = λ p id. (str_eq p project_id && str_eq id event_id) || a.has_event p id;
  issue = λ p f.
      if str_eq p project_id && str_eq f fingerprint
      then some (observed (a.issue project_id fingerprint))
      else a.issue p f;
}

unfoldable pub observe : Text → Text → Text → Tracker → Tracker
observe project_id event_id fingerprint a =
    if a.has_event project_id event_id then a else observe_new project_id event_id fingerprint a

-- the abstract state that the tables stand for
unfoldable pub tracker_of : Tables → Tracker
tracker_of t = record {
  has_event = λ p id. is_some (find_event p id t);
  issue = λ p f. Option.map (λ (i : IssueRow). (i.status, i.event_count)) (find_issue p f t);
}

abbrev status_count : IssueRow → IssueStatus × ℕ
status_count i = (i.status, i.event_count)

seen_after-observed :
    (now : Time) (i : IssueRow) → status_count (seen_after now i) ≡ observed (some (status_count i))
seen_after-observed now i = go i.status i.event_count
  where
    go :
        (st : IssueStatus) (n : ℕ)
        → ◌≡◌ {A = IssueStatus × ℕ}
            (if is_resolved st then unresolved else st, n + 1)
            (observed (some (st, n)))
    go unresolved n = refl
    go resolved n = refl
    go ignored n = refl

issue_after-observed :
    (project_id fingerprint title : Text) (t : Tables) (now : Time) (o : Option IssueRow)
    → status_count (issue_after project_id fingerprint title t now o)
      ≡ observed (Option.map status_count o)
issue_after-observed project_id fingerprint title t now none = refl
issue_after-observed project_id fingerprint title t now (some i) = seen_after-observed now i

is_some-find :
    (q : EventRow → Bool) (es : List EventRow) (e : EventRow)
    → is_some (find q (es ++ e ∷ [])) ≡ (q e || is_some (find q es))
unfolding find
is_some-find q [] e = ground arith
is_some-find q (x ∷ es) e = ground (arith, is_some-find q es e)

-- two texts that a test tells apart
apart : (a b : Text) → str_eq a b ≡ false → a ≢ b
apart a b h e = ground (arith, str_eq_iff a b)

module _ (project_id : Text) (ev : Event) (raw fingerprint title : Text) (t : Tables) (now : Time)
    (new : find_event project_id ev.event_id t ≡ none) where
  abbrev after : Tables
  after = (save_event project_id ev raw fingerprint title (calm t now)).1.tables

  is_event-new :
      (p id : Text) (issue_id seq : ℕ)
      → is_event p id (new_event (seq + 1) project_id issue_id ev raw now)
        ≡ (str_eq p project_id && str_eq id ev.event_id)
  unfolding is_event new_event
  is_event-new p id issue_id seq = ground (
    arith,
    str_eq_iff p project_id,
    str_eq_iff project_id p,
    str_eq_iff id ev.event_id,
    str_eq_iff ev.event_id id,
  )

  has_event-after :
      (p id : Text)
      → is_some (find_event p id after)
        ≡ ((str_eq p project_id && str_eq id ev.event_id) || is_some (find_event p id t))
  unfolding find str_eq save_event
  has_event-after p id =
      let (issue_id, t') = upsert_issue project_id fingerprint title t now in
      let e = new_event (t'.event_seq + 1) project_id issue_id ev raw now in
      rw (save_event-calm project_id ev raw fingerprint title t now) (
        rw
          (
            new,
            is_some-find (is_event p id) t'.events e,
            events-upsert_issue project_id ev raw fingerprint title t now,
          )
          (ap (λ b. b || is_some (find (is_event p id) t.events))
            (is_event-new p id issue_id t'.event_seq)))

  issue-after :
      (p f : Text)
      → Option.map status_count (find_issue p f after) ≡ (
          if str_eq p project_id && str_eq f fingerprint
          then some (observed (Option.map status_count (find_issue project_id fingerprint t)))
          else Option.map status_count (find_issue p f t))
  issue-after p f = elim (Bool-cases (str_eq p project_id)) [
    | inr other ↦ rw other (
        ap (Option.map status_count) (
          find_issue-save_event_other project_id ev raw fingerprint title t now p f
            (inl (apart p project_id other))))
    | inl same_project ↦ elim (Bool-cases (str_eq f fingerprint)) [
      | inr other ↦
          rw (same_project, other)
            (ap (Option.map status_count) (
              find_issue-save_event_other project_id ev raw fingerprint title t now p f
                (inr (apart f fingerprint other))))
      | inl same ↦
          rw (same_project, same)
            (ap₂ (λ x y. Option.map status_count (find_issue x y after))
                (str_eq_sound p project_id same_project) (str_eq_sound f fingerprint same)
              ∙ ap (Option.map status_count)
                  (find_issue-save_event project_id ev raw fingerprint title t now new)
              ∙ ap some (
                  issue_after-observed project_id fingerprint title t now
                    (find_issue project_id fingerprint t)))
    ]
  ]

-- While the database answers, `SaveEvent` does to what the tables stand for just what the abstract
-- operation does, whatever ids, titles, payloads and times there are.
pub tracker_of-save_event :
    (project_id : Text) (ev : Event) (raw fingerprint title : Text) (t : Tables) (now : Time)
    → tracker_of (save_event project_id ev raw fingerprint title (calm t now)).1.tables
      ≡ observe project_id ev.event_id fingerprint (tracker_of t)
unfolding tracker_of observe
tracker_of-save_event project_id ev raw fingerprint title t now =
    elim (Option-cases (find_event project_id ev.event_id t)) [
      | inr (e, old) ↦
          rw (old, save_event-calm project_id ev raw fingerprint title t now) (rw old refl)
      | inl new ↦ rw new (λ i. record {
        has_event = λ p id. has_event-after project_id ev raw fingerprint title t now new p id i;
        issue = λ p f. issue-after project_id ev raw fingerprint title t now new p f i;
      })
    ]

-- an arrival of an event, and the order of arrivals
pub record Arrival : Type 0 where
  pub project_id : Text
  pub event : Event
  pub raw : Text
  pub fingerprint : Text
  pub title : Text
  pub at_time : Time

abbrev pub save_all : List Arrival → Tables → Tables
save_all [] t = t
save_all (a ∷ later) t =
    save_all later
      (save_event a.project_id a.event a.raw a.fingerprint a.title (calm t a.at_time)).1.tables

abbrev pub observe_all : List Arrival → Tracker → Tracker
observe_all [] a = a
observe_all (x ∷ later) a =
    observe_all later (observe x.project_id x.event.event_id x.fingerprint a)

-- Any number of events, saved one after the other while the database answers, leaves tables that
-- stand for what the abstract operations make of the state at the start.
pub tracker_of-save_all :
    (arrivals : List Arrival) (t : Tables)
    → tracker_of (save_all arrivals t) ≡ observe_all arrivals (tracker_of t)
tracker_of-save_all [] t = refl
tracker_of-save_all (a ∷ later) t =
    tracker_of-save_all later
      (save_event a.project_id a.event a.raw a.fingerprint a.title (calm t a.at_time)).1.tables
    ∙ ap (observe_all later)
        (tracker_of-save_event a.project_id a.event a.raw a.fingerprint a.title t a.at_time)
