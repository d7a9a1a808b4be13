-- ===== src/WebUi/Templates.antt =====
-- internal/server/templates.go: the loading of the templates, and the functions that they call and
-- that compute something of their own. `parse` is what html/template makes of the embedded files of a
-- page, none if it gives an error; humanize and the format of a time are not modelled.
pub mod Loaded
use trackdown.Prelude.{
  Text, codes, Bool, true, false, Option, none, some, List, [], ◌∷◌, ◌++◌, if◌then◌else◌,
}
use trackdown.Store.Types.{IssueStatus, status_text}
use trackdown.WebUi.Pages.{Page, Execution, TemplateSet}
use trackdown.WebUi.Symbolication.{DisplayFrame}

-- `pageNames`
abbrev pub page_names : List Text
page_names =
    codes "home"
    ∷ codes "setup"
    ∷ codes "issues_list"
    ∷ codes "issue_detail"
    ∷ codes "event_detail"
    ∷ []

-- a set of templates, or the page whose files are not parsed
pub data LoadedTemplates : Type 0 where
  loaded : TemplateSet → LoadedTemplates
  unparsed : Text → LoadedTemplates

abbrev pub added : Text → (Page → Execution) → LoadedTemplates → LoadedTemplates
added name t (loaded ts) = loaded ((name, t) ∷ ts)
added name t (unparsed failing) = unparsed failing

abbrev pub add_parsed : Text → Option (Page → Execution) → LoadedTemplates → LoadedTemplates
add_parsed name none later = unparsed name
add_parsed name (some t) later = added name t later

-- the loop of `loadTemplates`
unfoldable pub load_each : (Text → Option (Page → Execution)) → List Text → LoadedTemplates
load_each parse [] = loaded []
load_each parse (name ∷ names) = add_parsed name (parse name) (load_each parse names)

-- `loadTemplates`
unfoldable pub load_templates : (Text → Option (Page → Execution)) → LoadedTemplates
unfolding load_each
load_templates parse = load_each parse page_names

-- `frameClass`
unfoldable pub frame_class : DisplayFrame → Text
frame_class f = if f.frame.in_app then codes "frame-in-app" else codes "frame-lib"

-- `statusBadgeClass`
unfoldable pub status_badge_class : IssueStatus → Text
unfolding status_text
status_badge_class s = codes "badge badge-" ++ status_text s
