-- ===== src/Store/Projects.antt =====
-- The projects of store.go: created by the first ingest, looked up and listed by the web UI.
use mathlib.Core.Option
use trackdown.Prelude.{
  Text, str_eq, Bool, ◌||◌, ◌&&◌, is_some, List, [], ◌∷◌, ◌++◌, true, false, Option, ltb, ◌==◌,
  if◌then◌else◌, find, order_by,
}
use trackdown.Store.Types.{Time, current_timestamp, Project, Tables}
use trackdown.Store.Query.{Query, select_row, select_rows, execute}
pub mod Laws

-- WHERE id = ?
unfoldable pub has_project_id : Text → Project → Bool
has_project_id id p = str_eq p.id id

abbrev pub find_project : Text → Tables → Option Project
find_project id t = find (has_project_id id) t.projects

-- INSERT INTO projects (id, public_key); `name` has its default
unfoldable pub new_project : Text → Text → Time → Project
new_project id public_key now = record {
  id = id;
  public_key = public_key;
  name = [];
  created_at = current_timestamp now;
}

-- `EnsureProject`: ON CONFLICT(id) DO NOTHING
unfoldable pub ensure_project : Text → Text → Query (Unit {0})
ensure_project id public_key = execute (λ t now. (
  tt,
  if is_some (find_project id t)
      then t
      else record t { projects = t.projects ++ (new_project id public_key now ∷ []) },
))

-- `ProjectPublicKey`
unfoldable pub project_public_key : Text → Query Text
project_public_key id =
    select_row (λ t. Option.map (λ (p : Project). p.public_key) (find_project id t))

-- `GetProject`
unfoldable pub get_project : Text → Query Project
get_project id = select_row (find_project id)

-- Byte order, as SQLite compares TEXT.
unfoldable pub text_le : Text → Text → Bool
text_le [] b = true
text_le (x ∷ a) [] = false
text_le (x ∷ a) (y ∷ b) = let rest = text_le a b in ltb x y || (x == y && rest)

-- ORDER BY created_at DESC, id DESC
unfoldable pub created_later : Project → Project → Bool
created_later a b =
    ltb b.created_at a.created_at || (b.created_at == a.created_at && text_le b.id a.id)

-- `ListProjects`
unfoldable pub list_projects : Query (List Project)
list_projects = select_rows (λ t. order_by created_later t.projects)
