-- ===== src/Store/Releases.antt =====
-- The releases of store.go and their sourcemap artifacts.
use mathlib.Core.Option
use trackdown.Prelude.{
  ℕ, ◌+◌, Text, str_eq, Bool, ◌&&◌, List, [], ◌∷◌, ◌++◌, Option, none, some, ◌==◌, find, update,
  is_some,
}
use trackdown.Store.Types.{Time, current_timestamp, Release, Artifact, Tables}
use trackdown.Store.Query.{Query, select_row, execute}
pub mod Artifacts

-- WHERE project_id = ? AND version = ?
unfoldable pub is_release : Text → Text → Release → Bool
is_release project_id version r = str_eq r.project_id project_id && str_eq r.version version

abbrev pub find_release : Text → Text → Tables → Option Release
find_release project_id version t = find (is_release project_id version) t.releases

unfoldable pub new_release : ℕ → Text → Text → Time → Release
new_release id project_id version now = record {
  id = id;
  project_id = project_id;
  version = version;
  created_at = current_timestamp now;
}

abbrev pub with_version : Text → Release → Release
with_version version r = record r { version = version }

abbrev release_upserted : Text → Text → Tables → Time → Option Release → ℕ × Tables
release_upserted project_id version t now (some r) = (
  r.id,
  record t { releases = update (is_release project_id version) (with_version version) t.releases },
)
release_upserted project_id version t now none = (
  t.release_seq + 1,
  record t {
    releases = t.releases ++ (new_release (t.release_seq + 1) project_id version now ∷ []);
    release_seq = t.release_seq + 1;
  },
)

-- `CreateRelease`: INSERT … ON CONFLICT DO UPDATE SET version = excluded.version RETURNING id
unfoldable pub create_release : Text → Text → Query ℕ
create_release project_id version =
    execute (λ t now. release_upserted project_id version t now (find_release project_id version t))

-- UNIQUE(release_id, abs_path)
unfoldable pub is_artifact : ℕ → Text → Artifact → Bool
is_artifact release_id abs_path a = (a.release_id == release_id) && str_eq a.abs_path abs_path

unfoldable pub replaced : Text → Time → Artifact → Artifact
replaced content now a = record a {
  sourcemap_content = content;
  created_at = current_timestamp now;
}

unfoldable pub new_artifact : ℕ → ℕ → Text → Text → Time → Artifact
new_artifact id release_id abs_path content now = record {
  id = id;
  release_id = release_id;
  abs_path = abs_path;
  sourcemap_content = content;
  created_at = current_timestamp now;
}

abbrev artifact_upserted : ℕ → Text → Text → Tables → Time → Option Artifact → Tables
artifact_upserted release_id abs_path content t now (some a) = record t {
  artifacts = update (is_artifact release_id abs_path) (replaced content now) t.artifacts;
}
artifact_upserted release_id abs_path content t now none = record t {
  artifacts =
      t.artifacts ++ (new_artifact (t.artifact_seq + 1) release_id abs_path content now ∷ []);
  artifact_seq = t.artifact_seq + 1;
}

-- `UploadArtifact`: INSERT … ON CONFLICT DO UPDATE SET sourcemap_content = …, created_at = …
unfoldable pub upload_artifact : ℕ → Text → Text → Query (Unit {0})
upload_artifact release_id abs_path content = execute (λ t now. (
  tt,
  artifact_upserted release_id abs_path content t now
      (find (is_artifact release_id abs_path) t.artifacts),
))

-- JOIN releases r ON r.id = a.release_id WHERE r.project_id = ? AND r.version = ?
unfoldable pub of_release : Text → Text → List Release → Artifact → Bool
of_release project_id version releases a =
    is_some (find (λ r. (r.id == a.release_id) && is_release project_id version r) releases)

-- `FindArtifact`
unfoldable pub find_artifact : Text → Text → Text → Query Text
find_artifact project_id version abs_path = select_row (λ t.
    Option.map (λ (a : Artifact). a.sourcemap_content)
      (find (λ a. of_release project_id version t.releases a && str_eq a.abs_path abs_path)
        t.artifacts))
