-- ===== src/Protocol/Decode/Laws.antt =====
-- What `ParseEvent` fills in, and how the JSON forms relate.
use trackdown.Prelude.{
  ◌≡◌, ◌≢◌, refl, ◌∙◌, Text, true, false, Option, none, some, List, [], ◌∷◌, ◌++◌, arith, str_eq,
  str_eq_sound, str_eq_refl, find, subst, All,
}
use trackdown.Protocol.Types.{LogEntry, message_string, Event}
use trackdown.Protocol.Decode.{◌>>=◌, parse_event, decode_event, normalize, put_tag, put_tags}
use trackdown.Protocol.Json.{JsonCodec}
use mathlib.Core.Option

normalize_level : (ev : Event) → (normalize ev).level ≢ []
unfolding normalize
normalize_level ev e = ground arith

map-normalize :
    (o : Option Event) (ev : Event)
    → Option.map normalize o ≡ some ev
    → (sent : Event) × (normalize sent ≡ ev)
map-normalize none ev h = cc
map-normalize (some sent) ev h = (sent, ground arith)

-- A payload that parses gives an event with a level, whether or not the SDK sent one.
pub parse_event-level :
    (json : JsonCodec) (payload : Text) (ev : Event)
    → parse_event json payload ≡ some ev
    → ev.level ≢ []
unfolding parse_event
parse_event-level json payload ev parsed =
    let (sent, e) = map-normalize (json.event payload >>= decode_event json) ev parsed in
    subst (λ (x : Event). x.level ≢ []) e (normalize_level sent)

-- A parsed event shows an empty message only where its log entry, if it has one, is empty.
pub normalize_message :
    (ev : Event) (l : LogEntry)
    → ev.log_entry ≡ some l
    → message_string (normalize ev).message ≡ []
    → (l.formatted ≡ []) × (l.message ≡ [])
unfolding normalize message_string
normalize_message ev l h e = ground arith

abbrev pub tag_value : Text → List (Text × Text) → Option Text
tag_value key tags = Option.map (λ (t : Text × Text). t.1) (find (λ t. str_eq t.0 key) tags)

value-put_tag :
    (key value : Text) (tags : List (Text × Text))
    → tag_value key (put_tag key value tags) ≡ some value
unfolding put_tag find
value-put_tag key value [] = ground (arith, str_eq_refl key)
value-put_tag key value ((k, v) ∷ tags) =
    ground (arith, str_eq_refl key, value-put_tag key value tags)

str_eq-false :
    (k key other : Text) → str_eq k key ≡ true → str_eq key other ≡ false → str_eq k other ≡ false
str_eq-false k key other same h = rw (str_eq_sound k key same) h

value-put_tag_other :
    (key value other : Text) (tags : List (Text × Text))
    → str_eq key other ≡ false
    → tag_value other (put_tag key value tags) ≡ tag_value other tags
unfolding put_tag find
value-put_tag_other key value other [] h = ground arith
value-put_tag_other key value other ((k, v) ∷ tags) h =
    let distinct = str_eq-false k key other in
    ground (arith, distinct, h, value-put_tag_other key value other tags h)

value-put_tags_other :
    (key : Text) (pairs tags : List (Text × Text))
    → All (λ (t : Text × Text). str_eq t.0 key ≡ false) pairs
    → tag_value key (put_tags pairs tags) ≡ tag_value key tags
unfolding put_tags
value-put_tags_other key [] tags h = refl
value-put_tags_other key ((k, v) ∷ pairs) tags h =
    value-put_tags_other key pairs (put_tag k v tags) h.1 ∙ value-put_tag_other k v key tags h.0

-- Of the pairs that the array form of the tags lists under one key, the last decides the tag,
-- whatever comes before it and whatever the map held.
pub tag_value-put_tags :
    (key value : Text) (before after tags : List (Text × Text))
    → All (λ (t : Text × Text). str_eq t.0 key ≡ false) after
    → tag_value key (put_tags (before ++ (key, value) ∷ after) tags) ≡ some value
unfolding put_tags
tag_value-put_tags key value [] after tags h =
    value-put_tags_other key after (put_tag key value tags) h ∙ value-put_tag key value tags
tag_value-put_tags key value ((k, v) ∷ before) after tags h =
    tag_value-put_tags key value before after (put_tag k v tags) h
