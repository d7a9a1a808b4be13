-- ===== src/Protocol/Decode.antt =====
-- event.go: the JSON forms that SDKs disagree on, and `ParseEvent`. What encoding/json, strconv and
-- time make of a text is an argument; which of them is asked, and what is made of the answer, is
-- modelled.
pub mod Laws
use trackdown.Prelude.{
  ℕ, Text, codes, Bool, true, false, not, ◌&&◌, ◌||◌, Option, none, some, List, [], ◌∷◌, ◌==◌,
  if◌then◌else◌, is_empty, str_eq, first, ℤ,
}
use trackdown.Protocol.Types.{
  Timestamp, LogEntry, Message, message_string, Stacktrace, Thread, ExceptionValue, Breadcrumb,
  SdkInfo, Event,
}
use trackdown.Protocol.Space.{trim_space}
use trackdown.Protocol.Json.{RawThread, RawBreadcrumb, RawEvent, JsonCodec}
use mathlib.Core.Option

infixl 5 ◌>>=◌
abbrev pub ◌>>=◌ {ℓ κ} : {A : Type ℓ} {B : Type κ} → Option A → (A → Option B) → Option B
◌>>=◌ none f = none
◌>>=◌ (some a) f = f a

abbrev each {ℓ κ} : {A : Type ℓ} {B : Type κ} → (A → Option B) → List A → Option (List B)
each f [] = some []
each f (a ∷ more) = do b ← f a; bs ← each f more; some (b ∷ bs)

abbrev starts_with : ℕ → Text → Bool
starts_with c [] = false
starts_with c (d ∷ ds) = c == d

abbrev is_null : Text → Bool
is_null trimmed = str_eq trimmed (codes "null")

abbrev quote : ℕ
quote = 34

abbrev open_bracket : ℕ
open_bracket = 91

abbrev open_brace : ℕ
open_brace = 123

-- A field that is absent keeps its zero value.
abbrev pub present {ℓ} : {A : Type ℓ} → A → (Text → Option A) → Option Text → Option A
present zero_value decode none = some zero_value
present zero_value decode (some text) = decode text

abbrev pub no_message : Message
no_message = record { formatted = []; raw = []; params = [] }

abbrev message_of : LogEntry → Message
message_of l = record { formatted = l.formatted; raw = l.message; params = l.params }

-- `m[key] = value`
unfoldable pub put_tag : Text → Text → List (Text × Text) → List (Text × Text)
put_tag key value [] = (key, value) ∷ []
put_tag key value ((k, v) ∷ tags) =
    let later = put_tag key value tags in
    if str_eq k key then (key, value) ∷ tags else (k, v) ∷ later

-- the loop over the pairs, into the map so far
unfoldable pub put_tags : List (Text × Text) → List (Text × Text) → List (Text × Text)
unfolding put_tag
put_tags [] tags = tags
put_tags ((k, v) ∷ pairs) tags = put_tags pairs (put_tag k v tags)

-- The bare array or the object that wraps it, told apart by the first byte.
unfoldable pub decode_list {ℓ} :
    {A : Type ℓ} → (Text → Option (List A)) → (Text → Option (List A)) → Text → Option (List A)
decode_list bare wrapped text =
    let trimmed = trim_space text in
    if is_null trimmed || is_empty trimmed
    then some []
    else if starts_with open_bracket trimmed
    then bare text
    else wrapped text

module _ (json : JsonCodec) where
  -- `Timestamp.UnmarshalJSON`
  unfoldable pub decode_timestamp : Text → Option Timestamp
  decode_timestamp text =
      let s = trim_space text in
      if is_null s || is_empty s
      then some none
      else if not (starts_with quote s)
      then Option.map some (json.parse_float s)
      else (do str ← json.string text; Option.map some (json.parse_time str))

  -- `FlexString.UnmarshalJSON`
  unfoldable pub decode_flex_string : Text → Option Text
  decode_flex_string text =
      let trimmed = trim_space text in
      if is_null trimmed
      then some []
      else if starts_with quote trimmed
      then json.string text
      else some trimmed

  -- `Message.UnmarshalJSON`
  unfoldable pub decode_message : Text → Option Message
  decode_message text =
      let trimmed = trim_space text in
      if is_null trimmed || is_empty trimmed
      then some no_message
      else if starts_with quote trimmed
      then Option.map (λ s. record no_message { formatted = s }) (json.string text)
      else Option.map message_of (json.message_object text)

  -- `Tags.UnmarshalJSON`
  unfoldable pub decode_tags : Text → Option (List (Text × Text))
  unfolding put_tags
  decode_tags text =
      let trimmed = trim_space text in
      if is_null trimmed || is_empty trimmed
      then some []
      else if starts_with open_brace trimmed
      then json.string_map text
      else Option.map (λ pairs. put_tags pairs []) (json.pairs text)

  unfoldable pub decode_thread : RawThread → Option Thread
  unfolding decode_flex_string
  decode_thread raw = do
    id ← present [] decode_flex_string raw.id
    some (record {
      id = id;
      name = raw.name;
      stacktrace = raw.stacktrace;
      crashed = raw.crashed;
      current = raw.current;
    })

  unfoldable pub decode_breadcrumb : RawBreadcrumb → Option Breadcrumb
  unfolding decode_timestamp
  decode_breadcrumb raw = do
    timestamp ← present none decode_timestamp raw.timestamp
    some (record {
      type = raw.type;
      category = raw.category;
      message = raw.message;
      level = raw.level;
      timestamp = timestamp;
    })

  -- `ThreadValues.UnmarshalJSON`
  unfoldable pub decode_threads : Text → Option (List Thread)
  unfolding decode_list decode_thread
  decode_threads =
      decode_list (λ d. json.threads d >>= each decode_thread)
        (λ d. json.wrapped_threads d >>= each decode_thread)

  -- `ExceptionValues.UnmarshalJSON`
  unfoldable pub decode_exceptions : Text → Option (List ExceptionValue)
  unfolding decode_list
  decode_exceptions = decode_list json.exceptions json.wrapped_exceptions

  -- `BreadcrumbList.UnmarshalJSON`
  unfoldable pub decode_breadcrumbs : Text → Option (List Breadcrumb)
  unfolding decode_list decode_breadcrumb
  decode_breadcrumbs =
      decode_list (λ d. json.breadcrumbs d >>= each decode_breadcrumb)
        (λ d. json.wrapped_breadcrumbs d >>= each decode_breadcrumb)

  -- `json.Unmarshal(payload, &ev)`, with the methods above for the fields that have them
  unfoldable pub decode_event : RawEvent → Option Event
  unfolding decode_timestamp decode_message decode_exceptions decode_threads decode_breadcrumbs
      decode_tags
  decode_event raw = do
    timestamp ← present none decode_timestamp raw.timestamp
    message ← present no_message decode_message raw.message
    exception ← present [] decode_exceptions raw.exception
    threads ← present [] decode_threads raw.threads
    breadcrumbs ← present [] decode_breadcrumbs raw.breadcrumbs
    tags ← present [] decode_tags raw.tags
    some (record {
      event_id = raw.event_id;
      timestamp = timestamp;
      platform = raw.platform;
      level = raw.level;
      logger = raw.logger;
      message = message;
      log_entry = raw.log_entry;
      exception = exception;
      threads = threads;
      breadcrumbs = breadcrumbs;
      tags = tags;
      release = raw.release;
      environment = raw.environment;
      server_name = raw.server_name;
      sdk = raw.sdk;
    })

abbrev pub with_log_entry : Option LogEntry → Event → Event
with_log_entry none ev = ev
with_log_entry (some l) ev =
    if is_empty (message_string ev.message) then record ev { message = message_of l } else ev

abbrev pub with_level : Event → Event
with_level ev = if is_empty ev.level then record ev { level = codes "error" } else ev

-- the two defaults that `ParseEvent` fills in
unfoldable pub normalize : Event → Event
unfolding message_string
normalize ev = with_level (with_log_entry ev.log_entry ev)

-- `ParseEvent`
unfoldable pub parse_event : JsonCodec → Text → Option Event
unfolding decode_event normalize
parse_event json payload = Option.map normalize (json.event payload >>= decode_event json)
