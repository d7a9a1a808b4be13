-- ===== src/Store/Releases/Artifacts.antt =====
-- Releases and artifacts, written and read back.
use mathlib.Core.Option
use mathlib.Core.Path.{fun_ext}
use trackdown.Prelude.{
  ℕ, ◌+◌, ◌≡◌, refl, sym, ap, ◌∙◌, subst, Text, str_eq, str_eq_iff, str_eq_refl, str_eq_sound, Bool,
  true, false, ◌&&◌, Option, none, some, List, [], ◌∷◌, arith, ◌==◌, Option-cases, Bool-cases, inl,
  inr, find, is_some, find-append, find-update, update_self, All, All-map, Pairs,
}
use trackdown.Store.Types.{Time, Release, Artifact, Tables}
use trackdown.Store.Query.{ok, scan_row, execute, select_row, calm}
use trackdown.Store.Releases.{
  is_release, find_release, create_release, is_artifact, replaced, new_artifact, upload_artifact,
  of_release, find_artifact, new_release, with_version,
}

-- UNIQUE(project_id, version)
abbrev pub OtherRelease : Release → Release → Type 0
OtherRelease a b = is_release b.project_id b.version a ≡ false

-- The release that a look-up finds after `CreateRelease`.
abbrev release_after : Text → Text → Tables → Time → Option Release → Release
release_after project_id version t now none = new_release (t.release_seq + 1) project_id version now
release_after project_id version t now (some r) = r

module _ (project_id version : Text) where
  is_release-new_release :
      (id : ℕ) (now : Time)
      → is_release project_id version (new_release id project_id version now) ≡ true
  unfolding is_release new_release
  is_release-new_release id now = ground (arith, str_eq_refl project_id, str_eq_refl version)

  is_release-with_version :
      (r : Release) → is_release project_id version r ≡ true → with_version version r ≡ r
  unfolding is_release
  is_release-with_version r h =
      let same : r.version ≡ version = str_eq_sound r.version version (ground arith) in
      ap (λ v. record r { version = v }) (sym same)

  same_release :
      (a b : Release)
      → is_release project_id version a ≡ true
      → is_release project_id version b ≡ true
      → is_release b.project_id b.version a ≡ true
  unfolding is_release
  same_release a b h k = ground (
    arith,
    str_eq_iff a.project_id project_id,
    str_eq_iff a.version version,
    str_eq_iff b.project_id project_id,
    str_eq_iff b.version version,
    str_eq_iff a.project_id b.project_id,
    str_eq_iff a.version b.version,
  )

  -- all rows of this project and version are one row
  only_release :
      (rs : List Release) (row : Release)
      → Pairs OtherRelease rs
      → find (is_release project_id version) rs ≡ some row
      → All (λ r. is_release project_id version r ≡ true → r.id ≡ row.id) rs
  unfolding find
  only_release [] row h e = tt
  only_release (r ∷ rs) row h e = elim (Bool-cases (is_release project_id version r)) [
    | inl t ↦
        (λ _. ground arith, All-map rs (λ b other k. absurd (cc (other, same_release r b t k))) h.0)
    | inr f ↦ (λ k. absurd (cc), only_release rs row h.1 (rw f at e))
  ]

  module _ (t : Tables) (now : Time) where
    -- Creating a release that exists returns its id and changes nothing.
    pub create_release_again :
        (row : Release)
        → find_release project_id version t ≡ some row
        → create_release project_id version (calm t now) ≡ (ok row.id, calm t now)
    unfolding create_release execute
    create_release_again row old = rw old (
        ap (λ rs. (ok row.id, calm (record t { releases = rs }) now))
          (update_self (is_release project_id version) (with_version version) t.releases
            is_release-with_version))

    -- After `CreateRelease` the release is found, under the id that was returned.
    pub find_release-create_release :
        (row : Release) × ((create_release project_id version (calm t now)).0 ≡ ok row.id)
        × (find_release project_id version (create_release project_id version (calm t now)).1.tables
            ≡ some row)
    find_release-create_release = elim (Option-cases (find_release project_id version t)) [
      | inl new ↦
          let row = new_release (t.release_seq + 1) project_id version now in
          (
            row,
            unfold create_release execute new_release in rw new refl,
            unfold create_release execute in rw new (rw (find-append, new, is_release-new_release)),
          )
      | inr (row, old) ↦
          (row, rw (create_release_again row old) refl, rw (create_release_again row old) old)
    ]

is_artifact-new_artifact :
    (id release_id : ℕ) (abs_path content : Text) (now : Time)
    → is_artifact release_id abs_path (new_artifact id release_id abs_path content now) ≡ true
unfolding is_artifact new_artifact
is_artifact-new_artifact id release_id abs_path content now = ground (arith, str_eq_refl abs_path)

-- the look-up by release and path after an upload
find-upload_artifact :
    (release_id : ℕ) (abs_path content : Text) (t : Tables) (now : Time)
    → (a : Artifact) × (find
          (is_artifact release_id abs_path)
          (upload_artifact release_id abs_path content (calm t now)).1.tables.artifacts
        ≡ some a)
      × (a.sourcemap_content ≡ content)
unfolding upload_artifact execute
find-upload_artifact release_id abs_path content t now =
    elim (Option-cases (find (is_artifact release_id abs_path) t.artifacts)) [
      | inl new ↦
          let a = new_artifact (t.artifact_seq + 1) release_id abs_path content now in
          (a, rw new (rw (find-append, new, is_artifact-new_artifact)), unfold new_artifact in refl)
      | inr (a, old) ↦ (
        replaced content now a,
        rw old (
            rw (
              find-update (is_artifact release_id abs_path) (replaced content now) t.artifacts
                  (λ x. unfold is_artifact replaced in refl),
              old,
            )),
        unfold replaced in refl,
      )
    ]

module _ (p : Release → Bool) (k : ℕ) where
  join_none :
      (rs : List Release) (m : ℕ)
      → All (λ r. p r ≡ true → r.id ≡ m) rs
      → (k == m) ≡ false
      → find (λ r. (r.id == k) && p r) rs ≡ none
  unfolding find
  join_none [] m h other = refl
  join_none (r ∷ rs) m h other = ground (arith, h.0, join_none rs m h.1 other)

  join_one :
      (rs : List Release) (row : Release)
      → All (λ r. p r ≡ true → r.id ≡ row.id) rs
      → find p rs ≡ some row
      → is_some (find (λ r. (r.id == k) && p r) rs) ≡ (k == row.id)
  unfolding find
  join_one [] row h e = cc
  join_one (r ∷ rs) row h e = elim (Bool-cases (p r)) [
    | inr f ↦ ground (arith, f, join_one rs row h.1 (rw f at e))
    | inl t ↦ elim (Bool-cases (k == row.id)) [
      | inl same ↦ ground (arith, t, same)
      | inr other ↦ ground (arith, t, other, join_none rs row.id h.1 other)
    ]
  ]

-- the JOIN keeps the artifacts of the one release
of_release_lem :
    (project_id version : Text) (rs : List Release) (row : Release) (a : Artifact)
    → Pairs OtherRelease rs
    → find (is_release project_id version) rs ≡ some row
    → of_release project_id version rs a ≡ (a.release_id == row.id)
unfolding of_release
of_release_lem project_id version rs row a h e =
    join_one (is_release project_id version) a.release_id rs row
      (only_release project_id version rs row h e) e

releases-upload_artifact :
    (release_id : ℕ) (abs_path content : Text) (t : Tables) (now : Time)
    → (upload_artifact release_id abs_path content (calm t now)).1.tables.releases ≡ t.releases
unfolding upload_artifact execute
releases-upload_artifact release_id abs_path content t now = ground arith

-- the WHERE of `FindArtifact`, in a table with one row for the project and version
where_lem :
    (project_id version abs_path : Text) (row : Release) (rs : List Release)
    → Pairs OtherRelease rs
    → find (is_release project_id version) rs ≡ some row
    → ◌≡◌ {A = Artifact → Bool}
        (λ a. of_release project_id version rs a && str_eq a.abs_path abs_path)
        (is_artifact row.id abs_path)
unfolding is_artifact
where_lem project_id version abs_path row rs distinct found = fun_ext λ a.
    ap (λ b. b && str_eq a.abs_path abs_path)
      (of_release_lem project_id version rs row a distinct found)

-- In a table with one row for a project and version, what was uploaded for the release, under
-- its id and a path, is what a look-up by project, version and path returns, also where an
-- earlier upload had another content.
pub find_artifact-upload_artifact :
    (project_id version abs_path content : Text) (row : Release) (t : Tables) (now later : Time)
    → Pairs OtherRelease t.releases
    → find_release project_id version t ≡ some row
    → (find_artifact project_id version abs_path
        (calm (upload_artifact row.id abs_path content (calm t now)).1.tables later)).0
      ≡ ok content
unfolding find_artifact select_row
find_artifact-upload_artifact project_id version abs_path content row t now later distinct found =
    let (a, read, same) = find-upload_artifact row.id abs_path content t now in
    let after = (upload_artifact row.id abs_path content (calm t now)).1.tables in
    let content_of =
      λ (o : Option Artifact). scan_row (Option.map (λ (x : Artifact). x.sourcemap_content) o) in
    let kept = releases-upload_artifact row.id abs_path content t now in
    ap (λ q. content_of (find q after.artifacts))
      (where_lem project_id version abs_path row after.releases
        (subst (λ rs. Pairs OtherRelease rs) (sym kept) distinct)
        (subst (λ rs. find (is_release project_id version) rs ≡ some row) (sym kept) found))
    ∙ ap content_of read
    ∙ ap ok same
