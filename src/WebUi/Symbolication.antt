-- ===== src/WebUi/Symbolication.antt =====
-- internal/server/symbolication.go: an event's stack frames with their original positions.
-- `unmarshal` is encoding/json on a source map.
pub mod Cached
pub mod Raw
use trackdown.Prelude.{
  Text, Bool, true, false, ◌||◌, Option, none, some, List, [], ◌∷◌, if◌then◌else◌, is_empty, str_eq,
  ℤ, pos, negsuc, ◌-ℤ◌, ltb_ℤ, not,
}
use trackdown.Protocol.Types.{Frame, Stacktrace, ExceptionValue, Event}
use trackdown.Store.Query as Query
use trackdown.Store.Query.{Result, Session}
use trackdown.Store.Releases.{find_artifact}
use trackdown.Symbolicate as Symbolicate
use trackdown.Symbolicate.{SourceMap, Position, Parsed, text_or_empty, parse, resolve}
use trackdown.Prelude.Int64.{add}

-- `displayFrame`
pub record DisplayFrame : Type 0 where
  pub frame : Frame
  pub symbolicated : Bool
  pub orig_file : Text
  pub orig_line : ℤ
  pub orig_column : ℤ
  pub orig_function : Text

-- `displayException`
pub record DisplayException : Type 0 where
  pub type : Text
  pub value : Text
  pub frames : List DisplayFrame

abbrev pub raw_frame : Frame → DisplayFrame
raw_frame f = record {
  frame = f;
  symbolicated = false;
  orig_file = [];
  orig_line = pos 0;
  orig_column = pos 0;
  orig_function = [];
}

abbrev pub with_position : Frame → Option Position → DisplayFrame
with_position f none = raw_frame f
with_position f (some p) = record {
  frame = f;
  symbolicated = true;
  orig_file = p.source;
  orig_line = add p.line (pos 1);
  orig_column = p.column;
  orig_function = text_or_empty p.name;
}

abbrev pub query_column : ℤ → ℤ
query_column colno = if ltb_ℤ (pos 0) colno then colno -ℤ pos 1 else pos 0

abbrev pub with_map : Frame → Option SourceMap → DisplayFrame
with_map f none = raw_frame f
with_map f (some sm) = with_position f (resolve sm (f.lineno -ℤ pos 1) (query_column f.colno))

-- whether a frame says too little to be looked up
abbrev pub is_unplaced : Frame → Bool
is_unplaced f = is_empty f.abs_path || not (ltb_ℤ (pos 0) f.lineno)

-- The loops, over a look-up with a state of its own.
module _ {S : Type 0} (lookup : Text → S → Option SourceMap × S) where
  -- `resolveFrame`
  unfoldable pub resolve_frame : Frame → S → DisplayFrame × S
  unfolding resolve ◌-ℤ◌ add
  resolve_frame f st =
      let (sm, st') = lookup f.abs_path st in
      if is_unplaced f then (raw_frame f, st) else (with_map f sm, st')

  unfoldable pub resolve_frames : List Frame → S → List DisplayFrame × S
  unfolding resolve_frame
  resolve_frames [] st = ([], st)
  resolve_frames (f ∷ fs) st =
      let (df, st') = resolve_frame f st in
      let (dfs, st'') = resolve_frames fs st' in (df ∷ dfs, st'')

  abbrev pub resolve_stack : Option Stacktrace → S → List DisplayFrame × S
  resolve_stack none st = ([], st)
  resolve_stack (some stack) st = resolve_frames stack.frames st

  unfoldable pub resolve_exceptions : List ExceptionValue → S → List DisplayException × S
  unfolding resolve_frames
  resolve_exceptions [] st = ([], st)
  resolve_exceptions (exc ∷ excs) st =
      let (frames, st') = resolve_stack exc.stacktrace st in
      let (later, st'') = resolve_exceptions excs st' in
      (record { type = exc.type; value = exc.value; frames = frames } ∷ later, st'')

-- The database, and `cache`: the maps looked up so far, or that there was none.
pub record Lookups : Type 0 where
  pub session : Session
  pub cache : List (Text × Option SourceMap)

unfoldable pub cached : Text → List (Text × Option SourceMap) → Option (Option SourceMap)
cached abs_path [] = none
cached abs_path ((p, sm) ∷ cache) = if str_eq p abs_path then some sm else cached abs_path cache

abbrev usable : Parsed → Option SourceMap
usable (Symbolicate.ok sm) = some sm
usable (Symbolicate.err e) = none
usable Symbolicate.stuck = none

module _ (unmarshal : Text → Option SourceMap) where
  abbrev pub found_map : Result Text → Option SourceMap
  found_map (Query.ok content) = usable (parse unmarshal content)
  found_map (Query.err e) = none

  module _ (project_id release : Text) where
    -- the look-up in the database
    unfoldable pub fetch : Text → Session → Option SourceMap × Session
    unfolding find_artifact parse
    fetch abs_path s =
        let (found, s') = find_artifact project_id release abs_path s in
        if is_empty release then (none, s) else (found_map found, s')

    abbrev pub lookup_fresh :
        Text → Lookups → Option (Option SourceMap) → Option SourceMap × Lookups
    lookup_fresh abs_path st (some sm) = (sm, st)
    lookup_fresh abs_path st none =
        let (sm, s) = fetch abs_path st.session in
        (sm, record { session = s; cache = (abs_path, sm) ∷ st.cache })

    -- the closure `lookup`
    unfoldable pub lookup : Text → Lookups → Option SourceMap × Lookups
    unfolding fetch cached
    lookup abs_path st = lookup_fresh abs_path st (cached abs_path st.cache)

  -- `buildDisplayExceptions`
  unfoldable pub build_display_exceptions : Text → Event → Session → List DisplayException × Session
  unfolding resolve_exceptions lookup
  build_display_exceptions project_id ev s =
      let (shown, st) =
        resolve_exceptions (lookup project_id ev.release) ev.exception
          (record { session = s; cache = [] }) in
      (shown, st.session)
