-- ===== src/Examples/Tables.antt =====
-- Issues, projects, releases and the outbox.
use trackdown.Prelude.{◌*◌, ◌≡◌, refl, codes, find, str_eq}
use trackdown.Store.Types.{second}
use trackdown.Store.Query.{ok, calm}
use trackdown.Store.Releases.{is_release, upload_artifact, find_artifact}
use trackdown.Store.Releases.Artifacts.{find_artifact-upload_artifact}
use trackdown.Examples.Data.{shop, release, tables}

find_artifact-upload_artifact_example :
    (find_artifact shop (codes "v1") (codes "a.js") (
      calm
        (upload_artifact 1 (codes "a.js") (codes "map") (calm tables (9 * second))).1.tables
        (12 * second))).0
    ≡ ok (codes "map")
unfolding find is_release str_eq
find_artifact-upload_artifact_example =
    find_artifact-upload_artifact shop (codes "v1") (codes "a.js") (codes "map") release tables
      (9 * second) (12 * second) (tt, tt) refl
