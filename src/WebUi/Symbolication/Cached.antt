-- ===== src/WebUi/Symbolication/Cached.antt =====
-- The cache of `buildDisplayExceptions`, and what a page shows of the frames.
use trackdown.Prelude.{
  ◌≡◌, refl, ap, ◌∙◌, Text, str_eq, str_eq_sound, Option, none, some, List, [], ◌∷◌, map, arith,
  Bool-cases, Option-cases, inl, inr, if◌then◌else◌, All,
}
use trackdown.Protocol.Types.{Frame, Stacktrace, ExceptionValue, Event}
use trackdown.Store.Types.{Time, Tables}
use trackdown.Store.Query.{calm, select_row}
use trackdown.Store.Releases.{find_artifact}
use trackdown.Symbolicate.{SourceMap}
use trackdown.WebUi.Symbolication.{
  DisplayFrame, DisplayException, raw_frame, with_map, is_unplaced, resolve_frame, resolve_frames,
  resolve_stack, resolve_exceptions, Lookups, cached, fetch, lookup, build_display_exceptions,
}

-- What is shown when the map of a path is known.
unfoldable pub display_frame : (Text → Option SourceMap) → Frame → DisplayFrame
display_frame value f = if is_unplaced f then raw_frame f else with_map f (value f.abs_path)

abbrev pub frames_of : Option Stacktrace → List Frame
frames_of none = []
frames_of (some stack) = stack.frames

unfoldable pub display_exception : (Text → Option SourceMap) → ExceptionValue → DisplayException
unfolding display_frame
display_exception value exc = record {
  type = exc.type;
  value = exc.value;
  frames = map (display_frame value) (frames_of exc.stacktrace);
}

-- A look-up that keeps `P` and gives the map of each path.
module _ {S : Type 0} (look : Text → S → Option SourceMap × S) (P : S → Type 0)
    (value : Text → Option SourceMap)
    (sound : (p : Text) (st : S) → P st → ((look p st).0 ≡ value p) × P (look p st).1) where
  resolve_frame_sound :
      (f : Frame) (st : S)
      → P st
      → ((resolve_frame look f st).0 ≡ display_frame value f) × P (resolve_frame look f st).1
  unfolding resolve_frame display_frame
  resolve_frame_sound f st h = elim (Bool-cases (is_unplaced f)) [
    | inl unplaced ↦ rw unplaced (refl, h)
    | inr placed ↦ rw placed (ap (with_map f) (sound f.abs_path st h).0, (sound f.abs_path st h).1)
  ]

  resolve_frames_sound :
      (fs : List Frame) (st : S)
      → P st
      → ((resolve_frames look fs st).0 ≡ map (display_frame value) fs)
        × P (resolve_frames look fs st).1
  unfolding resolve_frames
  resolve_frames_sound [] st h = (refl, h)
  resolve_frames_sound (f ∷ fs) st h =
      let (first, h') = resolve_frame_sound f st h in
      let (later, h'') = resolve_frames_sound fs (resolve_frame look f st).1 h' in (cc, h'')

  resolve_stack_sound :
      (o : Option Stacktrace) (st : S)
      → P st
      → ((resolve_stack look o st).0 ≡ map (display_frame value) (frames_of o))
        × P (resolve_stack look o st).1
  resolve_stack_sound none st h = (refl, h)
  resolve_stack_sound (some stack) st h = resolve_frames_sound stack.frames st h

  pub resolve_exceptions_sound :
      (excs : List ExceptionValue) (st : S)
      → P st
      → ((resolve_exceptions look excs st).0 ≡ map (display_exception value) excs)
        × P (resolve_exceptions look excs st).1
  unfolding resolve_exceptions display_exception
  resolve_exceptions_sound [] st h = (refl, h)
  resolve_exceptions_sound (exc ∷ excs) st h =
      let (first, h') = resolve_stack_sound exc.stacktrace st h in
      let (later, h'') =
        resolve_exceptions_sound excs (resolve_stack look exc.stacktrace st).1 h' in
      (rw (first, later) refl, h'')

module _ (unmarshal : Text → Option SourceMap) (project_id : Text) (t : Tables) (now : Time) where
  -- the map of a path, asked of the database anew
  abbrev pub map_of : Text → Text → Option SourceMap
  map_of release abs_path = (fetch unmarshal project_id release abs_path (calm t now)).0

  fetch-calm :
      (release abs_path : Text)
      → (fetch unmarshal project_id release abs_path (calm t now)).1 ≡ calm t now
  unfolding fetch find_artifact select_row
  fetch-calm release abs_path = ground arith

  module _ (release : Text) where
    record IsFaithful (st : Lookups) : Type 0 where
      calmly : st.session ≡ calm t now
      right : All (λ (e : Text × Option SourceMap). e.1 ≡ map_of release e.0) st.cache

    cached_right :
        (abs_path : Text) (cache : List (Text × Option SourceMap)) {sm : Option SourceMap}
        → All (λ (e : Text × Option SourceMap). e.1 ≡ map_of release e.0) cache
        → cached abs_path cache ≡ some sm
        → sm ≡ map_of release abs_path
    unfolding cached
    cached_right abs_path [] h e = cc
    cached_right abs_path ((p, sm') ∷ cache) h e = elim (Bool-cases (str_eq p abs_path)) [
      | inl same ↦ cc (h.0, str_eq_sound p abs_path same, (rw same at e))
      | inr other ↦ cached_right abs_path cache h.1 (rw other at e)
    ]

    lookup_sound :
        (abs_path : Text) (st : Lookups)
        → IsFaithful st
        → ((lookup unmarshal project_id release abs_path st).0 ≡ map_of release abs_path)
          × IsFaithful (lookup unmarshal project_id release abs_path st).1
    unfolding lookup
    lookup_sound abs_path st h = elim (Option-cases (cached abs_path st.cache)) [
      | inl new ↦ rw new (
        ap (λ s. (fetch unmarshal project_id release abs_path s).0) h.calmly,
        record {
          calmly =
              ap (λ s. (fetch unmarshal project_id release abs_path s).1) h.calmly
              ∙ fetch-calm release abs_path;
          right = (ap (λ s. (fetch unmarshal project_id release abs_path s).0) h.calmly, h.right);
        },
      )
      | inr (sm, old) ↦ rw old (cached_right abs_path st.cache h.right old, h)
    ]

  -- While the database answers, a page shows each frame as if its source map were looked up anew:
  -- the cache of maps changes nothing.
  pub build_display_exceptions-map :
      (ev : Event)
      → build_display_exceptions unmarshal project_id ev (calm t now)
        ≡ (map (display_exception (map_of ev.release)) ev.exception, calm t now)
  unfolding build_display_exceptions
  build_display_exceptions-map ev =
      let st : Lookups = record { session = calm t now; cache = [] } in
      let h : IsFaithful ev.release st = record { calmly = refl; right = tt } in
      let (shown, after) =
        resolve_exceptions_sound (lookup unmarshal project_id ev.release) (IsFaithful ev.release)
          (map_of ev.release) (lookup_sound ev.release) ev.exception st h in
      λ i. (shown i, after.calmly i)
