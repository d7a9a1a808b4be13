-- ===== src/Ingest/Upload.antt =====
-- internal/ingest/releases.go: releases and their sourcemaps. The body of a request is the bytes
-- that its reader gives and whether it then fails.
use trackdown.Prelude.{
  ℕ, ◌+◌, ◌*◌, ◌^◌, Text, Option, none, some, is_empty, ltb, length, if◌then◌else◌,
}
use trackdown.Store.Query.{Result, ok, err, Session}
use trackdown.Store.Releases.{create_release, upload_artifact}
use trackdown.Ingest.Body.{Stream, read_limited}
use trackdown.Ingest.{Response, created, no_content, bad_request, too_large, internal_error}

-- `maxArtifactSize`
abbrev pub max_artifact_size : ℕ
max_artifact_size = 20 * 2 ^ 20

abbrev pub release_created : Text → Result ℕ × Session → Response (ℕ × Text) × Session
release_created version (ok id, s) = (created (id, version), s)
release_created version (err e, s) = (internal_error, s)

-- `CreateRelease`, from the version that encoding/json found in the body, if it found one
unfoldable pub serve_create_release : Text → Option Text → Session → Response (ℕ × Text) × Session
unfolding create_release
serve_create_release project_id none s = (bad_request, s)
serve_create_release project_id (some version) s =
    if is_empty version
    then (bad_request, s)
    else release_created version (create_release project_id version s)

abbrev pub uploaded : Result (Unit {0}) × Session → Response (Unit {0}) × Session
uploaded (ok u, s) = (no_content, s)
uploaded (err e, s) = (internal_error, s)

abbrev pub upload_content : ℕ → Text → Option Text → Session → Response (Unit {0}) × Session
upload_content release_id abs_path none s = (bad_request, s)
upload_content release_id abs_path (some bytes) s =
    if ltb max_artifact_size (length bytes)
    then (too_large, s)
    else if is_empty bytes
    then (bad_request, s)
    else uploaded (upload_artifact release_id abs_path bytes s)

abbrev pub upload_to : Text → Stream → Result ℕ × Session → Response (Unit {0}) × Session
upload_to abs_path body (ok id, s) =
    upload_content id abs_path (read_limited (max_artifact_size + 1) body) s
upload_to abs_path body (err e, s) = (internal_error, s)

-- `UploadArtifact`
unfoldable pub serve_upload_artifact :
    Text → Text → Text → Stream → Session → Response (Unit {0}) × Session
unfolding upload_artifact create_release read_limited
serve_upload_artifact project_id version abs_path body s =
    if is_empty abs_path
    then (bad_request, s)
    else upload_to abs_path body (create_release project_id version s)
