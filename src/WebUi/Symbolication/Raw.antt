-- ===== src/WebUi/Symbolication/Raw.antt =====
-- What `buildDisplayExceptions` keeps of an event, and of the database.
use trackdown.Prelude.{
  ◌≡◌, refl, ap₂, ◌∙◌, Text, Option, none, some, List, [], ◌∷◌, map, Bool-cases, Option-cases, inl,
  inr, is_empty, pos, ◌-ℤ◌,
}
use trackdown.Protocol.Types.{Frame, Stacktrace, ExceptionValue, Event}
use trackdown.Store.Types.{Tables}
use trackdown.Store.Query.{Session}
use trackdown.Store.Query.Laws.{select_row-Reads}
use trackdown.Store.Releases.{find_artifact}
use trackdown.Symbolicate.{SourceMap, Position, resolve}
use trackdown.WebUi.Symbolication.{
  DisplayFrame, DisplayException, with_map, with_position, is_unplaced, query_column, resolve_frame,
  resolve_frames, resolve_stack, resolve_exceptions, Lookups, cached, fetch, lookup,
  build_display_exceptions,
}
use trackdown.WebUi.Symbolication.Cached.{frames_of}

-- what an event says of an exception, and what a page shows of that
abbrev pub Raw : Type 0
Raw = Text × Text × List Frame

abbrev pub raw_of : ExceptionValue → Raw
raw_of exc = (exc.type, exc.value, frames_of exc.stacktrace)

abbrev pub raw_shown : DisplayException → Raw
raw_shown de = (de.type, de.value, map (λ (df : DisplayFrame). df.frame) de.frames)

with_position-raw : (f : Frame) (p : Option Position) → (with_position f p).frame ≡ f
with_position-raw f none = refl
with_position-raw f (some p) = refl

with_map-raw : (f : Frame) (sm : Option SourceMap) → (with_map f sm).frame ≡ f
with_map-raw f none = refl
with_map-raw f (some sm) =
    with_position-raw f (resolve sm (f.lineno -ℤ pos 1) (query_column f.colno))

module _ {S : Type 0} (look : Text → S → Option SourceMap × S) (P : S → Type 0)
    (keeps : (p : Text) (st : S) → P st → P (look p st).1) where
  resolve_frame-raw :
      (f : Frame) (st : S)
      → P st
      → ((resolve_frame look f st).0.frame ≡ f) × P (resolve_frame look f st).1
  unfolding resolve_frame
  resolve_frame-raw f st h = elim (Bool-cases (is_unplaced f)) [
    | inl unplaced ↦ rw unplaced (refl, h)
    | inr placed ↦ rw placed (with_map-raw f (look f.abs_path st).0, keeps f.abs_path st h)
  ]

  resolve_frames-raw :
      (fs : List Frame) (st : S)
      → P st
      → (map (λ (df : DisplayFrame). df.frame) (resolve_frames look fs st).0 ≡ fs)
        × P (resolve_frames look fs st).1
  unfolding resolve_frames
  resolve_frames-raw [] st h = (refl, h)
  resolve_frames-raw (f ∷ fs) st h =
      let (first, h') = resolve_frame-raw f st h in
      let (later, h'') = resolve_frames-raw fs (resolve_frame look f st).1 h' in
      (ap₂ ◌∷◌ first later, h'')

  resolve_stack-raw :
      (o : Option Stacktrace) (st : S)
      → P st
      → (map (λ (df : DisplayFrame). df.frame) (resolve_stack look o st).0 ≡ frames_of o)
        × P (resolve_stack look o st).1
  resolve_stack-raw none st h = (refl, h)
  resolve_stack-raw (some stack) st h = resolve_frames-raw stack.frames st h

  resolve_exceptions-raw :
      (excs : List ExceptionValue) (st : S)
      → P st
      → (map raw_shown (resolve_exceptions look excs st).0 ≡ map raw_of excs)
        × P (resolve_exceptions look excs st).1
  unfolding resolve_exceptions
  resolve_exceptions-raw [] st h = (refl, h)
  resolve_exceptions-raw (exc ∷ excs) st h =
      let (first, h') = resolve_stack-raw exc.stacktrace st h in
      let (later, h'') = resolve_exceptions-raw excs (resolve_stack look exc.stacktrace st).1 h' in
      (λ i. (exc.type, exc.value, first i) ∷ later i, h'')

module _ (unmarshal : Text → Option SourceMap) (project_id : Text) where
  fetch-Reads :
      (release abs_path : Text) (s : Session)
      → (fetch unmarshal project_id release abs_path s).1.tables ≡ s.tables
  unfolding fetch find_artifact
  fetch-Reads release abs_path s = elim (Bool-cases (is_empty release)) [
    | inl no_release ↦ rw no_release refl
    | inr given ↦ rw given (select_row-Reads _ s)
  ]

  lookup-Reads :
      (release : Text) (t : Tables) (abs_path : Text) (st : Lookups)
      → st.session.tables ≡ t
      → (lookup unmarshal project_id release abs_path st).1.session.tables ≡ t
  unfolding lookup
  lookup-Reads release t abs_path st h = elim (Option-cases (cached abs_path st.cache)) [
    | inl new ↦ rw new (fetch-Reads release abs_path st.session ∙ h)
    | inr (sm, old) ↦ rw old h
  ]

  -- Whatever the database answers, a page shows every exception of the event with its type, its
  -- value and all its frames, in their order, and showing them changes no table.
  pub build_display_exceptions-raw :
      (ev : Event) (s : Session)
      → (map raw_shown (build_display_exceptions unmarshal project_id ev s).0
          ≡ map raw_of ev.exception)
        × ((build_display_exceptions unmarshal project_id ev s).1.tables ≡ s.tables)
  unfolding build_display_exceptions
  build_display_exceptions-raw ev s =
      resolve_exceptions-raw (lookup unmarshal project_id ev.release)
        (λ st. st.session.tables ≡ s.tables) (lookup-Reads ev.release s.tables) ev.exception
        (record { session = s; cache = [] }) refl
