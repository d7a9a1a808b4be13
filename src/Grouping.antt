-- ===== src/Grouping.antt =====
-- internal/grouping/fingerprint.go: the fingerprint that decides which issue an event belongs to,
-- and the title of the issue. SHA-256 is an argument.
use trackdown.Prelude.{
  ℕ, ◌+◌, ◌/◌, ◌%◌, Text, codes, str_eq, Bool, true, false, not, ◌&&◌, List, [], ◌∷◌, ◌++◌, Option,
  none, some, ◌-◌, ltb, if◌then◌else◌, is_empty, filter,
}
use trackdown.Protocol.Types.{Event, Frame, Stacktrace, Thread, ExceptionValue, message_string}
pub mod Frames
pub mod Separate
pub mod Titles

-- `xs[len(xs)-1]`, if there is one
abbrev pub get_last? {ℓ} : {A : Type ℓ} → List A → Option A
get_last? [] = none
get_last? (x ∷ []) = some x
get_last? (x ∷ y ∷ ys) = get_last? (y ∷ ys)

-- `filterInApp`
unfoldable pub filter_in_app : List Frame → List Frame
filter_in_app frames = filter (λ f. f.in_app) frames

-- The loop of `frameComponents`, on the target frames left.
unfoldable pub collapse : Bool → Text → Text → List Frame → List Text
collapse first last_module last_function [] = []
collapse first last_module last_function (f ∷ fs) =
    let skipped = collapse first last_module last_function fs in
    let kept = f.module_name ∷ f.function ∷ collapse false f.module_name f.function fs in
    if not first && str_eq f.module_name last_module && str_eq f.function last_function
    then skipped
    else kept

-- `frameComponents`
unfoldable pub frame_components : List Frame → List Text
unfolding filter_in_app
frame_components frames =
    let in_app = filter_in_app frames in
    let target = if not (is_empty in_app) then in_app else frames in collapse true [] [] target

-- the two loops of `currentThreadFrames`
first_current : List Thread → Option (List Frame)
first_current [] = none
first_current (th ∷ ths) =
    let rest = first_current ths in
    elim th.stacktrace [ none ↦ rest | some st ↦ if th.current then some st.frames else rest ]

first_with_stack : List Thread → Option (List Frame)
first_with_stack [] = none
first_with_stack (th ∷ ths) =
    let rest = first_with_stack ths in elim th.stacktrace [ none ↦ rest | some st ↦ some st.frames ]

-- `currentThreadFrames`. A thread whose frames are a nil slice gives `some []` here: its event has
-- the same components either way.
unfoldable pub current_thread_frames : List Thread → Option (List Frame)
unfolding first_current first_with_stack
current_thread_frames threads = elim (first_current threads) [
  | some frames ↦ some frames
  | none ↦ first_with_stack threads
]

abbrev pub stack_components : Option Stacktrace → List Text
stack_components none = []
stack_components (some st) = frame_components st.frames

abbrev pub thread_components : Option (List Frame) → List Text
thread_components none = []
thread_components (some frames) = frame_components frames

abbrev pub components_of : Event → Option ExceptionValue → List Text
components_of ev (some primary) =
    codes "exception" ∷ primary.type ∷ stack_components primary.stacktrace
components_of ev none =
    codes "message"
    ∷ message_string ev.message
    ∷ thread_components (current_thread_frames ev.threads)

-- `components`
unfoldable pub components : Event → List Text
components ev = components_of ev (get_last? ev.exception)

-- `strings.Join(parts, "\x00")`
unfoldable pub join_nul : List Text → Text
join_nul [] = []
join_nul (p ∷ []) = p
join_nul (p ∷ q ∷ ps) = p ++ (0 ∷ join_nul (q ∷ ps))

pub hex_digit : ℕ → ℕ
hex_digit n = if ltb n 10 then b'0' + n else b'a' + (n - 10)

-- `hex.EncodeToString`
unfoldable pub encode_hex : Text → Text
unfolding hex_digit
encode_hex [] = []
encode_hex (b ∷ bs) = hex_digit (b / 16) ∷ hex_digit (b % 16) ∷ encode_hex bs

-- `Fingerprint`
unfoldable pub fingerprint : (Text → Text) → Event → Text
fingerprint sha256 ev = encode_hex (sha256 (join_nul (components ev)))

abbrev pub message_title : Event → Text
message_title ev =
    let msg = message_string ev.message in if not (is_empty msg) then msg else codes "(no message)"

abbrev pub title_of : Event → Option ExceptionValue → Text
title_of ev none = message_title ev
title_of ev (some primary) =
    if not (is_empty primary.value)
    then primary.type ++ codes ": " ++ primary.value
    else if not (is_empty primary.type)
    then primary.type
    else message_title ev

-- `Title`
unfoldable pub title : Event → Text
title ev = title_of ev (get_last? ev.exception)
