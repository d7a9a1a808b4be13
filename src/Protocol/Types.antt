-- ===== src/Protocol/Types.antt =====
-- The structs of internal/protocol/envelope.go and event.go. A pointer field is an `Option`, and a
-- Go `int` an integer; the JSON tags matter to encoding/json alone and have no counterpart.
use trackdown.Prelude.{ℕ, ℤ, Text, Bool, not, Option, List, is_empty, if◌then◌else◌}

pub record SdkInfo : Type 0 where
  pub name : Text
  pub version : Text

pub record EnvelopeHeader : Type 0 where
  pub event_id : Text
  pub sent_at : Text
  pub dsn : Text
  pub sdk : Option SdkInfo

pub record ItemHeader : Type 0 where
  pub type : Text
  pub length : Option ℤ
  pub content_type : Text
  pub filename : Text

pub record Item : Type 0 where
  pub header : ItemHeader
  pub payload : Text

pub record Envelope : Type 0 where
  pub header : EnvelopeHeader
  pub items : List Item

pub record LogEntry : Type 0 where
  pub formatted : Text
  pub message : Text
  pub params : List Text

pub record Message : Type 0 where
  pub formatted : Text
  pub raw : Text
  pub params : List Text

-- An instant, in nanoseconds since the Unix epoch; `none` is Go's zero `time.Time`.
abbrev pub Timestamp : Type 0
Timestamp = Option ℕ

pub record Mechanism : Type 0 where
  pub type : Text
  pub description : Text
  pub source : Text
  pub handled : Option Bool
  pub exception_id : ℤ
  pub parent_id : Option ℤ

pub record Frame : Type 0 where
  pub filename : Text
  pub abs_path : Text
  pub function : Text
  pub module_name : Text
  pub lineno : ℤ
  pub colno : ℤ
  pub context_line : Text
  pub in_app : Bool

pub record Stacktrace : Type 0 where
  pub frames : List Frame

pub record Thread : Type 0 where
  pub id : Text
  pub name : Text
  pub stacktrace : Option Stacktrace
  pub crashed : Bool
  pub current : Bool

pub record ExceptionValue : Type 0 where
  pub type : Text
  pub value : Text
  pub module_name : Text
  pub stacktrace : Option Stacktrace
  pub mechanism : Option Mechanism

-- The field `data`, a map of arbitrary JSON values that nothing reads, is left out.
pub record Breadcrumb : Type 0 where
  pub type : Text
  pub category : Text
  pub message : Text
  pub level : Text
  pub timestamp : Timestamp

pub record Event : Type 0 where
  pub event_id : Text
  pub timestamp : Timestamp
  pub platform : Text
  pub level : Text
  pub logger : Text
  pub message : Message
  pub log_entry : Option LogEntry
  pub exception : List ExceptionValue
  pub threads : List Thread
  pub breadcrumbs : List Breadcrumb
  pub tags : List (Text × Text)
  pub release : Text
  pub environment : Text
  pub server_name : Text
  pub sdk : Option SdkInfo

-- `Message.String`
unfoldable pub message_string : Message → Text
message_string m = if not (is_empty m.formatted) then m.formatted else m.raw
