-- ===== src/Store/Issues/Laws.antt =====
-- What a change of status does, and in which order issues are listed.
use mathlib.Core.List.{Perm}
use trackdown.Prelude.{
  ℕ, ◌≡◌, ◌≢◌, ◌⊎◌, refl, Text, str_eq_iff, Bool, true, false, none, some, List, [], ◌∷◌, arith,
  map, find, find_sound, update, filter, count_where, find-update, find-update_other,
  find-update_by, order_by, IsOrdered, order_by-IsOrdered, order_by-perm,
}
use trackdown.Store.Types.{IssueStatus, Time, IssueRow, Tables}
use trackdown.Store.Query.{ok, err, no_rows, execute, select_rows, calm}
use trackdown.Store.Events.{find_issue, has_fingerprint}
use trackdown.Store.Issues.{
  is_issue, seen_later, with_status, set_issue_status, list_issues, issue_of_project, scan_issue,
}

module _ (p : IssueRow → Bool) where
  count-zero : (is : List IssueRow) → find p is ≡ none → count_where p is ≡ 0
  unfolding find count_where
  count-zero [] h = refl
  count-zero (i ∷ is) h = ground (arith, count-zero is)

  count-positive : (is : List IssueRow) {i : IssueRow} → find p is ≡ some i → count_where p is ≢ 0
  unfolding find count_where
  count-positive [] h = cc
  count-positive (j ∷ is) {i} h = ground (arith, count-positive is {i = i})

  update-none :
      (f : IssueRow → IssueRow) (is : List IssueRow) → find p is ≡ none → update p f is ≡ is
  unfolding find update
  update-none f [] h = refl
  update-none f (i ∷ is) h = ground (arith, update-none f is)

module _ (project_id : Text) (id : ℕ) (status : IssueStatus) (t : Tables) (now : Time) where
  -- An issue that is not in the project: ErrNoRows, and no table changes.
  pub set_issue_status_missing :
      find (is_issue project_id id) t.issues ≡ none
      → set_issue_status project_id id status (calm t now) ≡ (err no_rows, calm t now)
  unfolding set_issue_status execute
  set_issue_status_missing h = rw (
    count-zero (is_issue project_id id) t.issues h,
    update-none (is_issue project_id id) (with_status status) t.issues h,
  )

  pub set_issue_status-tables :
      (set_issue_status project_id id status (calm t now)).1.tables
      ≡ record t { issues = update (is_issue project_id id) (with_status status) t.issues }
  unfolding set_issue_status execute
  set_issue_status-tables = ground arith

  -- An issue of the project gets the status, and keeps all else.
  pub set_issue_status_found :
      (i : IssueRow)
      → find (is_issue project_id id) t.issues ≡ some i
      → ((set_issue_status project_id id status (calm t now)).0 ≡ ok tt)
        × (find
              (is_issue project_id id)
              (set_issue_status project_id id status (calm t now)).1.tables.issues
            ≡ some (record i { status = status }))
  unfolding with_status is_issue
  set_issue_status_found i h = (
    unfold set_issue_status execute in
        ground (arith, count-positive (is_issue project_id id) t.issues h),
    rw set_issue_status-tables
        (rw (find-update (is_issue project_id id) (with_status status) t.issues (λ x. refl), h)),
  )

  -- Every other issue, by project and id, is found as it was.
  pub set_issue_status_other :
      (project_id' : Text) (id' : ℕ)
      → (project_id' ≢ project_id) ⊎ (id' ≢ id)
      → find
          (is_issue project_id' id')
          (set_issue_status project_id id status (calm t now)).1.tables.issues
        ≡ find (is_issue project_id' id') t.issues
  unfolding with_status is_issue
  set_issue_status_other project_id' id' other = rw set_issue_status-tables (
      find-update_other (is_issue project_id id) (is_issue project_id' id') (with_status status)
        t.issues (λ x. refl)
        (λ x h.
          ground (arith, str_eq_iff x.project_id project_id, str_eq_iff x.project_id project_id')))

  -- The look-up by fingerprint finds the issue with the new status.
  pub find_issue-set_issue_status :
      (fingerprint : Text) (i : IssueRow)
      → find_issue project_id fingerprint t ≡ some i
      → i.id ≡ id
      → find_issue project_id fingerprint
          (set_issue_status project_id id status (calm t now)).1.tables
        ≡ some (record i { status = status })
  unfolding with_status is_issue has_fingerprint
  find_issue-set_issue_status fingerprint i h same = rw set_issue_status-tables (
      rw
        (
          find-update_by (is_issue project_id id) (has_fingerprint project_id fingerprint)
              (with_status status) t.issues (λ x. refl),
          h,
        )
        (ground (arith, find_sound (has_fingerprint project_id fingerprint) t.issues h)))

seen_later_total : (a b : IssueRow) → seen_later a b ≡ false → seen_later b a ≡ true
unfolding seen_later
seen_later_total a b h = ground arith

seen_later_trans :
    (a b c : IssueRow) → seen_later a b ≡ true → seen_later b c ≡ true → seen_later a c ≡ true
unfolding seen_later
seen_later_trans a b c h k = ground arith

-- `ListIssues` returns exactly the project's issues, the last seen first and, among those last
-- seen at one time, the largest id first.
pub list_issues-IsOrdered :
    (project_id : Text) (t : Tables) (now : Time)
    → (rows : List IssueRow) × (list_issues project_id (calm t now)
        ≡ (ok (map (scan_issue t) rows), calm t now))
      × IsOrdered seen_later rows
      × Perm rows (filter (issue_of_project project_id) t.issues)
unfolding list_issues select_rows
list_issues-IsOrdered project_id t now =
    let found = filter (issue_of_project project_id) t.issues in
    (
      order_by seen_later found,
      refl,
      order_by-IsOrdered seen_later seen_later_total seen_later_trans found,
      order_by-perm seen_later found,
    )
