-- ===== src/Examples/Data.antt =====
-- The events, tables and services that the examples share.
use trackdown.Prelude.{ℕ, ◌*◌, Text, codes, true, false, none, some, [], ◌∷◌, pos}
use trackdown.Protocol.Types.{Event, ExceptionValue, Frame, ItemHeader}
use trackdown.Protocol.Envelope.{HeaderJson}
use trackdown.Protocol.Decode.{no_message}
use trackdown.Protocol.Json.{JsonCodec, RawEvent}
use trackdown.Alert.{Notifier}
use trackdown.Store.Types.{
  unresolved, pending, second, IssueRow, EventRow, OutboxEntry, Release, Project, Tables,
}
use trackdown.Ingest.Body.{Services, Request}

abbrev pub shop : Text
shop = codes "shop"

abbrev pub frame : Text → ℕ → Frame
frame function line = record {
  filename = codes "main.go";
  abs_path = [];
  function = function;
  module_name = codes "main";
  lineno = pos line;
  colno = pos 0;
  context_line = [];
  in_app = true;
}

abbrev pub crash : ExceptionValue
crash = record {
  type = codes "E";
  value = codes "boom";
  module_name = [];
  stacktrace = some (record { frames = frame (codes "f") 3 ∷ [] });
  mechanism = none;
}

abbrev pub bare : ExceptionValue
bare = record { type = []; value = []; module_name = []; stacktrace = none; mechanism = none }

abbrev pub event : Text → Event
event id = record {
  event_id = id;
  timestamp = some (3 * second);
  platform = codes "go";
  level = codes "error";
  logger = [];
  message = no_message;
  log_entry = none;
  exception = crash ∷ [];
  threads = [];
  breadcrumbs = [];
  tags = [];
  release = [];
  environment = [];
  server_name = [];
  sdk = none;
}

abbrev pub issue : IssueRow
issue = record {
  id = 1;
  project_id = shop;
  fingerprint = codes "k";
  title = codes "E: boom";
  status = unresolved;
  first_seen = 3 * second;
  last_seen = 3 * second;
  event_count = 1;
}

abbrev pub row : EventRow
row = record {
  id = 1;
  project_id = shop;
  issue_id = some 1;
  event_id = codes "a";
  received_at = 3 * second;
  event_timestamp = none;
  level = codes "error";
  platform = codes "go";
  message = [];
  payload = codes "{}";
}

abbrev pub entry : OutboxEntry
entry = record {
  id = 1;
  project_id = shop;
  issue_id = 1;
  title = codes "E: boom";
  level = codes "error";
  is_new = true;
  is_regression = false;
  event_count = 1;
  occurred_at = 3 * second;
  status = pending;
  attempts = 1;
  next_attempt_at = 63 * second;
  created_at = 3 * second;
  last_error = codes "down";
}

abbrev pub release : Release
release = record { id = 1; project_id = shop; version = codes "v1"; created_at = 3 * second }

abbrev pub project : Project
project = record { id = shop; public_key = codes "key"; name = []; created_at = 3 * second }

-- one project with an issue, its event, an alert to deliver again, and a release
abbrev pub tables : Tables
tables = record {
  projects = project ∷ [];
  issues = issue ∷ [];
  events = row ∷ [];
  outbox = entry ∷ [];
  releases = release ∷ [];
  artifacts = [];
  issue_seq = 1;
  event_seq = 1;
  outbox_seq = 1;
  release_seq = 1;
  artifact_seq = 0;
}

-- notifiers that count what they were asked
abbrev pub deaf : Notifier ℕ
deaf ev w = (some (codes "down"), w)

abbrev pub heard : Notifier ℕ
heard ev w = (none, w)

abbrev pub raw_event : RawEvent
raw_event = record {
  event_id = codes "b";
  timestamp = none;
  platform = codes "go";
  level = [];
  logger = [];
  message = none;
  log_entry = none;
  exception = none;
  threads = none;
  breadcrumbs = none;
  tags = none;
  release = [];
  environment = [];
  server_name = [];
  sdk = none;
}

-- decoders that find one thing in every text
abbrev pub codec : JsonCodec
codec = record {
  string = λ t. some t;
  string_map = λ t. some [];
  pairs = λ t. some [];
  message_object = λ t. none;
  threads = λ t. some [];
  wrapped_threads = λ t. some [];
  exceptions = λ t. some [];
  wrapped_exceptions = λ t. some [];
  breadcrumbs = λ t. some [];
  wrapped_breadcrumbs = λ t. some [];
  event = λ t. some raw_event;
  parse_float = λ t. some 0;
  parse_time = λ t. none;
}

abbrev pub event_header : ItemHeader
event_header = record { type = codes "event"; length = none; content_type = []; filename = [] }

abbrev pub headers : HeaderJson
headers = record {
  envelope_header = λ t. some (record { event_id = codes "b"; sent_at = []; dsn = []; sdk = none });
  item_header = λ t. some event_header;
}

abbrev pub services : Services
services = record {
  host_of = λ t. none;
  match_key = λ t. none;
  gunzip = λ t. none;
  headers = headers;
  alloc_limit = 1000;
  json = codec;
  sha256 = λ t. [];
}

-- an envelope with one event, in the query key's form of authentication
abbrev pub request : Request
request = record {
  remote_addr = codes "10.0.0.1";
  project_id = shop;
  auth = [];
  query_key = codes "key";
  content_encoding = [];
  body = (codes "{}\n{}\n{}\n", false);
}
