-- ===== src/Protocol/Json.antt =====
-- What encoding/json, strconv and time give to the decoders of event.go.
use trackdown.Prelude.{ℕ, Text, Bool, Option, List}
use trackdown.Protocol.Types.{LogEntry, Stacktrace, ExceptionValue, SdkInfo}

-- A thread, a breadcrumb and an event before their own decoders ran: each field that has one is
-- the text it is called with, or `none` when the payload has no such field.
pub record RawThread : Type 0 where
  pub id : Option Text
  pub name : Text
  pub stacktrace : Option Stacktrace
  pub crashed : Bool
  pub current : Bool

pub record RawBreadcrumb : Type 0 where
  pub type : Text
  pub category : Text
  pub message : Text
  pub level : Text
  pub timestamp : Option Text

pub record RawEvent : Type 0 where
  pub event_id : Text
  pub timestamp : Option Text
  pub platform : Text
  pub level : Text
  pub logger : Text
  pub message : Option Text
  pub log_entry : Option LogEntry
  pub exception : Option Text
  pub threads : Option Text
  pub breadcrumbs : Option Text
  pub tags : Option Text
  pub release : Text
  pub environment : Text
  pub server_name : Text
  pub sdk : Option SdkInfo

-- `json.Unmarshal` for the types it is asked for, `strconv.ParseFloat` (in whole nanoseconds) and
-- `time.Parse` with RFC3339Nano (in UTC). The object form of a message has a log entry's fields.
pub record JsonCodec : Type 0 where
  pub string : Text → Option Text
  pub string_map : Text → Option (List (Text × Text))
  pub pairs : Text → Option (List (Text × Text))
  pub message_object : Text → Option LogEntry
  pub threads : Text → Option (List RawThread)
  pub wrapped_threads : Text → Option (List RawThread)
  pub exceptions : Text → Option (List ExceptionValue)
  pub wrapped_exceptions : Text → Option (List ExceptionValue)
  pub breadcrumbs : Text → Option (List RawBreadcrumb)
  pub wrapped_breadcrumbs : Text → Option (List RawBreadcrumb)
  pub event : Text → Option RawEvent
  pub parse_float : Text → Option ℕ
  pub parse_time : Text → Option ℕ
