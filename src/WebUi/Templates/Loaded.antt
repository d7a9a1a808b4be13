-- ===== src/WebUi/Templates/Loaded.antt =====
-- Every page that a handler shows has its template.
use trackdown.Prelude.{
  ◌≡◌, refl, sym, ap, ◌∙◌, subst, Text, codes, Bool, true, false, ◌||◌, Option, none, some, ℕ, List,
  [], ◌∷◌, str_eq, str_eq_iff, Bool-cases, inl, inr,
}
use trackdown.Protocol.Types.{Event}
use trackdown.Protocol.Decode.{parse_event}
use trackdown.Store.Types.{Project, IssueStatus}
use trackdown.Store.Query as Query
use trackdown.Store.Query.{Result, Session, DbError, no_rows, failure, constraint}
use trackdown.Store.Projects.{get_project, list_projects}
use trackdown.Store.Events.{StoredEvent, get_event, list_events_by_issue}
use trackdown.Store.Issues.{Issue, get_issue, list_issues, set_issue_status}
use trackdown.WebUi.Pages.{Page, Execution, TemplateSet, find_template, written, render}
use trackdown.WebUi.{
  Services, Origin, Reply, show, fails, moves, missing, home_reply, setup_reply, issues_reply,
  list_reply, events_reply, issue_reply, action_reply, detail_of, action_on, event_page,
  event_reply,
}
use trackdown.WebUi.Templates.{
  page_names, LoadedTemplates, loaded, unparsed, add_parsed, load_each, load_templates,
}
use trackdown.WebUi.Routes.{
  Route, get_home, get_project_index, get_project_setup, get_issue_list, get_issue_detail,
  post_resolve, post_ignore, post_reopen, get_event_detail, serve_route, respond,
}

abbrev has_name : Text → List Text → Bool
has_name name [] = false
has_name name (n ∷ ns) = str_eq n name || has_name name ns

-- a page is shown by one of the names of `pageNames`
abbrev IsNamed : Reply → Type 0
IsNamed (show name page) = has_name name page_names ≡ true
IsNamed (fails status text) = Unit
IsNamed (moves status path) = Unit

missing-IsNamed : (what : Text) (e : DbError) → IsNamed (missing what e)
missing-IsNamed what no_rows = tt
missing-IsNamed what failure = tt
missing-IsNamed what constraint = tt

home_reply-IsNamed : (r : Result (List Project)) → IsNamed (home_reply r)
unfolding str_eq
home_reply-IsNamed (Query.ok projects) = refl
home_reply-IsNamed (Query.err e) = tt

setup_reply-IsNamed :
    (project_id : Text) (o : Origin) (r : Result Project) → IsNamed (setup_reply project_id o r)
unfolding str_eq
setup_reply-IsNamed project_id o (Query.ok p) = refl
setup_reply-IsNamed project_id o (Query.err e) = missing-IsNamed (codes "project") e

issues_reply-IsNamed :
    (project_id status : Text) (r : Result (List Issue))
    → IsNamed (issues_reply project_id status r)
unfolding str_eq
issues_reply-IsNamed project_id status (Query.ok issues) = refl
issues_reply-IsNamed project_id status (Query.err e) = tt

list_reply-IsNamed :
    (project_id status : Text) (r : Result Project × Session)
    → IsNamed (list_reply project_id status r).0
list_reply-IsNamed project_id status (Query.ok p, s) =
    issues_reply-IsNamed project_id status (list_issues project_id s).0
list_reply-IsNamed project_id status (Query.err e, s) = missing-IsNamed (codes "project") e

events_reply-IsNamed :
    (project_id : Text) (i : Issue) (r : Result (List StoredEvent))
    → IsNamed (events_reply project_id i r)
unfolding str_eq
events_reply-IsNamed project_id i (Query.ok events) = refl
events_reply-IsNamed project_id i (Query.err e) = tt

issue_reply-IsNamed :
    (project_id : Text) (id : ℕ) (r : Result Issue × Session)
    → IsNamed (issue_reply project_id id r).0
issue_reply-IsNamed project_id id (Query.ok i, s) =
    events_reply-IsNamed project_id i (list_events_by_issue project_id id s).0
issue_reply-IsNamed project_id id (Query.err e, s) = missing-IsNamed (codes "issue") e

action_reply-IsNamed :
    (project_id : Text) (id : ℕ) (r : Result (Unit {0})) → IsNamed (action_reply project_id id r)
action_reply-IsNamed project_id id (Query.ok u) = tt
action_reply-IsNamed project_id id (Query.err e) = missing-IsNamed (codes "issue") e

module _ {J : Type 0} (services : Services J) where
  detail_of-IsNamed :
      (project_id issue_id : Text) (o : Option ℕ) (s : Session)
      → IsNamed (detail_of services project_id issue_id o s).0
  unfolding trackdown.WebUi.bad_issue_id
  detail_of-IsNamed project_id issue_id none s = tt
  detail_of-IsNamed project_id issue_id (some id) s =
      issue_reply-IsNamed project_id id (get_issue project_id id s)

  action_on-IsNamed :
      (status : IssueStatus) (project_id issue_id : Text) (o : Option ℕ) (s : Session)
      → IsNamed (action_on services status project_id issue_id o s).0
  unfolding trackdown.WebUi.bad_issue_id
  action_on-IsNamed status project_id issue_id none s = tt
  action_on-IsNamed status project_id issue_id (some id) s =
      action_reply-IsNamed project_id id (set_issue_status project_id id status s).0

  event_page-IsNamed :
      (project_id : Text) (stored : StoredEvent) (o : Option Event) (s : Session)
      → IsNamed (event_page services project_id stored o s).0
  unfolding str_eq
  event_page-IsNamed project_id stored none s = tt
  event_page-IsNamed project_id stored (some ev) s = refl

  event_reply-IsNamed :
      (project_id : Text) (r : Result StoredEvent × Session)
      → IsNamed (event_reply services project_id r).0
  event_reply-IsNamed project_id (Query.ok stored, s) =
      event_page-IsNamed project_id stored (parse_event services.event_json stored.payload) s
  event_reply-IsNamed project_id (Query.err e, s) = missing-IsNamed (codes "event") e

  serve_route-IsNamed : (route : Route) (s : Session) → IsNamed (serve_route services route s).0
  unfolding serve_route
  serve_route-IsNamed get_home s = home_reply-IsNamed (list_projects s).0
  serve_route-IsNamed (get_project_index project_id) s = tt
  serve_route-IsNamed (get_project_setup project_id o) s =
      setup_reply-IsNamed project_id o (get_project project_id s).0
  serve_route-IsNamed (get_issue_list project_id status) s =
      list_reply-IsNamed project_id status (get_project project_id s)
  serve_route-IsNamed (get_issue_detail project_id id) s =
      detail_of-IsNamed project_id id (services.parse_int id) s
  serve_route-IsNamed (post_resolve project_id id) s =
      action_on-IsNamed _ project_id id (services.parse_int id) s
  serve_route-IsNamed (post_ignore project_id id) s =
      action_on-IsNamed _ project_id id (services.parse_int id) s
  serve_route-IsNamed (post_reopen project_id id) s =
      action_on-IsNamed _ project_id id (services.parse_int id) s
  serve_route-IsNamed (get_event_detail project_id id) s =
      event_reply-IsNamed project_id (get_event project_id id s)

render-find_template :
    (ts : TemplateSet) (name : Text) (page : Page) (t : Page → Execution)
    → find_template name ts ≡ some t
    → render ts 200 name page ≡ written 200 (t page)
unfolding render
render-find_template ts name page t found = rw (found, render) refl

module _ (parse : Text → Option (Page → Execution)) where
  abbrev HasTemplate : Text → TemplateSet → Type 0
  HasTemplate name ts =
      (t : Page → Execution) × (parse name ≡ some t) × (find_template name ts ≡ some t)

  abbrev Finds : List Text → LoadedTemplates → Type 0
  Finds names (unparsed name) = Unit
  Finds names (loaded ts) = (name : Text) → has_name name names ≡ true → HasTemplate name ts

  add_parsed-Finds :
      (n : Text) (names : List Text) (o : Option (Page → Execution)) (later : LoadedTemplates)
      → parse n ≡ o
      → Finds names later
      → Finds (n ∷ names) (add_parsed n o later)
  add_parsed-Finds n names none later e h = tt
  add_parsed-Finds n names (some t) (unparsed failing) e h = tt
  add_parsed-Finds n names (some t) (loaded ts) e h = λ name listed.
      elim (Bool-cases (str_eq n name)) [
        | inl same ↦ (t, ap parse (sym ((str_eq_iff n name).0 same)) ∙ e, rw same refl)
        | inr differs ↦
            let (t', parsed, found) = h name (rw differs at listed) in
            (t', parsed, rw differs found)
      ]

  load_each-Finds : (names : List Text) → Finds names (load_each parse names)
  unfolding load_each
  load_each-Finds [] = λ name listed. cc
  load_each-Finds (n ∷ names) =
      add_parsed-Finds n names (parse n) (load_each parse names) refl (load_each-Finds names)

  -- If the templates were all loaded, then every page that a handler shows, for any request and any
  -- answer of the database, is the page of its own template, executed on what the handler gives:
  -- no request is answered by "unknown template".
  pub respond-load_templates :
      {J : Type 0} (services : Services J) (route : Route) (s : Session) (ts : TemplateSet)
      (name : Text) (page : Page)
      → load_templates parse ≡ loaded ts
      → (serve_route services route s).0 ≡ show name page
      → (t : Page → Execution) × (parse name ≡ some t)
        × ((respond ts services route s).0 ≡ written 200 (t page))
  unfolding load_templates respond
  respond-load_templates services route s ts name page all shown =
      let named : has_name name page_names ≡ true =
        subst IsNamed shown (serve_route-IsNamed services route s) in
      let finds : Finds page_names (loaded ts) =
        subst (Finds page_names) all (load_each-Finds page_names) in
      let (t, parsed, found) = finds name named in
      (t, parsed, rw shown (render-find_template ts name page t found))
