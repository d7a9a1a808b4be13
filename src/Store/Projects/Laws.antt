-- ===== src/Store/Projects/Laws.antt =====
-- The first public key of a project stays.

use trackdown.Prelude.{
  ◌≡◌, refl, Text, true, str_eq_refl, none, some, Option-cases, inl, inr, find-append,
}
use trackdown.Store.Types.{Time, Project, Tables}
use trackdown.Store.Query.{ok, select_row, execute, calm}
use trackdown.Store.Projects.{
  has_project_id, find_project, new_project, ensure_project, project_public_key,
}

has_project_id-new_project :
    (id key : Text) (now : Time) → has_project_id id (new_project id key now) ≡ true
unfolding has_project_id new_project
has_project_id-new_project id key now = str_eq_refl id

module _ (id key : Text) (t : Tables) (now : Time) where
  -- After `EnsureProject` the project is there: the one that was, key included, or else a new one.
  pub find_project-ensure_project :
      find_project id (ensure_project id key (calm t now)).1.tables
      ≡ (elim (find_project id t) [ none ↦ some (new_project id key now) | some p ↦ some p ])
  unfolding ensure_project execute
  find_project-ensure_project = elim (Option-cases (find_project id t)) [
    | inl new ↦ rw new (rw (find-append, new, has_project_id-new_project))
    | inr (p, old) ↦ rw old old
  ]

  -- The key of a project that exists is what it was, whatever key a later request brings.
  pub project_public_key-ensure_project :
      (p : Project) (later : Time)
      → find_project id t ≡ some p
      → project_public_key id (calm (ensure_project id key (calm t now)).1.tables later)
        ≡ (ok p.public_key, calm t later)
  unfolding project_public_key ensure_project execute select_row
  project_public_key-ensure_project p later old = rw old (rw old refl)
