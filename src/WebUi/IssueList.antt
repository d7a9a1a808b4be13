-- ===== src/WebUi/IssueList.antt =====
-- The issue list and its counts.
use mathlib.Core.Path.{fun_ext}
use trackdown.Prelude.{
  ℕ, ◌+◌, ◌≡◌, refl, subst, ap, Text, codes, str_eq, str_eq_iff, Bool, true, false, List, [], ◌∷◌,
  arith, length, map, filter, count_where, length-filter, if◌then◌else◌, Bool-cases, inl, inr,
}
use trackdown.Store.Types.{IssueStatus, unresolved, resolved, ignored, Project, status_text}
use trackdown.Store.Query as Query
use trackdown.Store.Query.{Result, Session, DbError, no_rows, failure, constraint}
use trackdown.Store.Projects.{get_project}
use trackdown.Store.Issues.{Issue, list_issues}
use trackdown.WebUi.Pages.{
  IssueLine, IssueListPage, issue_list, to_issue_row, count_at, count_up, count_statuses,
}
use trackdown.WebUi.{
  Reply, show, missing, status_filter, is_listed, issue_list_page, issues_reply, list_reply,
  handle_issue_list,
}

count_at-count_up :
    (k status : Text) (counts : List (Text × ℕ))
    → count_at k (count_up status counts)
      ≡ (if str_eq status k then count_at k counts + 1 else count_at k counts)
unfolding count_at count_up
count_at-count_up k status [] = ground (arith, str_eq_iff status k)
count_at-count_up k status ((j, n) ∷ counts) = ground (
  arith,
  str_eq_iff j k,
  str_eq_iff status k,
  str_eq_iff j status,
  count_at-count_up k status counts,
)

abbrev has_status : Text → Issue → Bool
has_status k i = str_eq (status_text i.status) k

count_at-count_statuses :
    (k : Text) (issues : List Issue) (counts : List (Text × ℕ))
    → count_at k (count_statuses issues counts)
      ≡ count_at k counts + count_where (has_status k) issues
unfolding count_statuses count_where
count_at-count_statuses k [] counts = omega arith
count_at-count_statuses k (i ∷ issues) counts = ground (
  arith,
  count_at-count_statuses k issues (count_up (status_text i.status) counts),
  count_at-count_up k (status_text i.status) counts,
)

length-map : (f : Issue → IssueLine) (xs : List Issue) → length (map f xs) ≡ length xs
length-map f [] = refl
length-map f (x ∷ xs) = omega (arith, length-map f xs)

abbrev one_status : IssueStatus → Text → ℕ
one_status status k = if str_eq (status_text status) k then 1 else 0

statuses_sum :
    (status : IssueStatus)
    → one_status status (codes "unresolved")
        + one_status status (codes "resolved")
        + one_status status (codes "ignored")
      ≡ 1
unfolding status_text str_eq
statuses_sum unresolved = refl
statuses_sum resolved = refl
statuses_sum ignored = refl

count_statuses_sum :
    (issues : List Issue)
    → count_where (has_status (codes "unresolved")) issues
        + count_where (has_status (codes "resolved")) issues
        + count_where (has_status (codes "ignored")) issues
      ≡ length issues
unfolding count_where
count_statuses_sum [] = refl
count_statuses_sum (i ∷ issues) = ground (arith, statuses_sum i.status, count_statuses_sum issues)

filter_all :
    (p : Issue → Bool) (issues : List Issue) → ((i : Issue) → p i ≡ true) → filter p issues ≡ issues
unfolding filter
filter_all p [] h = refl
filter_all p (i ∷ issues) h = rw (h i) (ap (λ is. i ∷ is) (filter_all p issues h))

-- The number of lines that a page should have, by its counts.
abbrev pub expected_lines : IssueListPage → ℕ
expected_lines p =
    if str_eq p.status (codes "all")
    then count_at (codes "unresolved") p.counts
      + count_at (codes "resolved") p.counts
      + count_at (codes "ignored") p.counts
    else count_at p.status p.counts

is_listed-all :
    (status : Text) (i : Issue) → str_eq status (codes "all") ≡ true → is_listed status i ≡ true
unfolding is_listed
is_listed-all status i h = rw h refl

is_listed-has_status :
    (status : Text) (i : Issue)
    → str_eq status (codes "all") ≡ false
    → is_listed status i ≡ has_status status i
unfolding is_listed
is_listed-has_status status i h = rw h refl

issue_list_page_lines :
    (project_id status : Text) (issues : List Issue)
    → length (issue_list_page project_id status issues).issues
      ≡ expected_lines (issue_list_page project_id status issues)
unfolding issue_list_page count_at
issue_list_page_lines project_id status issues = elim (Bool-cases (str_eq status (codes "all"))) [
  | inl all ↦
      rw (all, filter_all (is_listed status) issues (λ i. is_listed-all status i all))
        (omega (
          arith,
          length-map to_issue_row issues,
          count_statuses_sum issues,
          count_at-count_statuses (codes "unresolved") issues [],
          count_at-count_statuses (codes "resolved") issues [],
          count_at-count_statuses (codes "ignored") issues [],
        ))
  | inr one ↦
      rw (one, fun_ext (λ (i : Issue). is_listed-has_status status i one))
        (omega (
          arith,
          length-map to_issue_row (filter (has_status status) issues),
          length-filter (has_status status) issues,
          count_at-count_statuses status issues [],
        ))
]

abbrev Agrees : Reply → Type 0
Agrees (show name (issue_list p)) = length p.issues ≡ expected_lines p
Agrees reply = Unit

issues_reply-Agrees :
    (project_id status : Text) (r : Result (List Issue)) → Agrees (issues_reply project_id status r)
issues_reply-Agrees project_id status (Query.ok issues) =
    issue_list_page_lines project_id (status_filter status) issues
issues_reply-Agrees project_id status (Query.err e) = tt

missing-Agrees : (what : Text) (e : DbError) → Agrees (missing what e)
missing-Agrees what no_rows = tt
missing-Agrees what failure = tt
missing-Agrees what constraint = tt

list_reply-Agrees :
    (project_id status : Text) (r : Result Project × Session)
    → Agrees (list_reply project_id status r).0
list_reply-Agrees project_id status (Query.ok p, s) =
    issues_reply-Agrees project_id status (list_issues project_id s).0
list_reply-Agrees project_id status (Query.err e, s) = missing-Agrees (codes "project") e

-- On every page of the issue list that is shown, the number of lines is the count that the page
-- gives for its filter, and with the filter "all" the sum of the three counts.
pub handle_issue_list-counts :
    (project_id status : Text) (s : Session) (p : IssueListPage)
    → (handle_issue_list project_id status s).0 ≡ show (codes "issues_list") (issue_list p)
    → length p.issues ≡ expected_lines p
unfolding handle_issue_list
handle_issue_list-counts project_id status s p shown =
    subst Agrees shown (list_reply-Agrees project_id status (get_project project_id s))
