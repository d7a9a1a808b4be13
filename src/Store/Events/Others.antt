-- ===== src/Store/Events/Others.antt =====
-- The operations on issues, releases and projects keep the events and issues consistent.
use trackdown.Prelude.{
  ℕ, ◌≡◌, refl, sym, subst, arith, Text, inl, inr, Option-cases, ◌==◌, find, if◌then◌else◌,
  All-update, Pairs, Pairs-update, count_where, update,
}
use trackdown.Store.Types.{IssueStatus, Tables}
use trackdown.Store.Query.{Result, ok, err, Query, Session, execute, fail, no_rows, pure, continue}
use trackdown.Store.Query.Laws.{execute_keeps}
use trackdown.Store.Issues.{is_issue, with_status, set_issue_status}
use trackdown.Store.Releases.{find_release, create_release, is_artifact, upload_artifact}
use trackdown.Store.Events.{has_fingerprint}
use trackdown.Store.Events.Invariant.{IsConsistent, OtherKey, OtherIssue, EarlierIssue}

-- a change of tables that are not the events' or issues'
abbrev pub SameIssues : Tables → Tables → Type 0
SameIssues t t' = (t'.events ≡ t.events) × (t'.issues ≡ t.issues) × (t'.issue_seq ≡ t.issue_seq)

pub SameIssues-IsConsistent : (t t' : Tables) → SameIssues t t' → IsConsistent t → IsConsistent t'
SameIssues-IsConsistent t t' (e, i, q) c = record {
  event_keys = subst (Pairs OtherKey) (sym e) c.event_keys;
  issue_keys = subst (Pairs OtherIssue) (sym i) c.issue_keys;
  issue_order = subst (Pairs EarlierIssue) (sym i) c.issue_order;
  issue_ids = rw (i, q) c.issue_ids;
  event_links = rw (e, q) c.event_links;
  counted = rw (e, i) c.counted;
}

-- what follows a statement, and changes no table
pub continue-tables {ℓ κ} :
    {A : Type ℓ} {B : Type κ} (P : Tables → Type 0) (r : Result A) (f : A → Query B) (s : Session)
    → ((a : A) → (f a s).1.tables ≡ s.tables)
    → P s.tables
    → P (continue r f s).1.tables
continue-tables P (ok a) f s h k = subst P (sym (h a)) k
continue-tables P (err e) f s h k = k

pub set_issue_status-IsConsistent :
    (project_id : Text) (id : ℕ) (status : IssueStatus) (s : Session)
    → IsConsistent s.tables
    → IsConsistent (set_issue_status project_id id status s).1.tables
unfolding set_issue_status with_status is_issue has_fingerprint
set_issue_status-IsConsistent project_id id status s c =
    let set : Query ℕ = execute (λ t now. (
      count_where (is_issue project_id id) t.issues,
      record t { issues = update (is_issue project_id id) (with_status status) t.issues },
    )) in
    continue-tables IsConsistent (set s).0 (λ n. if n == 0 then fail no_rows else pure tt) (set s).1
      (λ n. ground arith)
      (execute_keeps IsConsistent _ s c (record {
        event_keys = c.event_keys;
        issue_keys =
            Pairs-update OtherIssue (is_issue project_id id) (with_status status) s.tables.issues
              (λ x y r. r) (λ x y r. r) c.issue_keys;
        issue_order =
            Pairs-update EarlierIssue (is_issue project_id id) (with_status status) s.tables.issues
              (λ x y r. r) (λ x y r. r) c.issue_order;
        issue_ids =
            All-update (is_issue project_id id) (with_status status) s.tables.issues (λ x _ h. h)
              (λ x _ h. h) c.issue_ids;
        event_links = c.event_links;
        counted =
            All-update (is_issue project_id id) (with_status status) s.tables.issues (λ x _ h. h)
              (λ x _ h. h) c.counted;
      }))

pub create_release-IsConsistent :
    (project_id version : Text) (s : Session)
    → IsConsistent s.tables
    → IsConsistent (create_release project_id version s).1.tables
unfolding create_release
create_release-IsConsistent project_id version s c =
    execute_keeps IsConsistent _ s c
      (elim (Option-cases (find_release project_id version s.tables)) [
        | inl new ↦ rw new (SameIssues-IsConsistent s.tables _ (refl, refl, refl) c)
        | inr (r, old) ↦ rw old (SameIssues-IsConsistent s.tables _ (refl, refl, refl) c)
      ])

pub upload_artifact-IsConsistent :
    (release_id : ℕ) (abs_path content : Text) (s : Session)
    → IsConsistent s.tables
    → IsConsistent (upload_artifact release_id abs_path content s).1.tables
unfolding upload_artifact
upload_artifact-IsConsistent release_id abs_path content s c =
    execute_keeps IsConsistent _ s c
      (elim (Option-cases (find (is_artifact release_id abs_path) s.tables.artifacts)) [
        | inl new ↦ rw new (SameIssues-IsConsistent s.tables _ (refl, refl, refl) c)
        | inr (a, old) ↦ rw old (SameIssues-IsConsistent s.tables _ (refl, refl, refl) c)
      ])
