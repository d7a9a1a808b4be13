-- ===== src/Protocol/Envelope.antt =====
-- envelope.go: `ParseEnvelope`. The reader is the list of the bytes not yet read. encoding/json is
-- an argument, and so is the size from which `make` panics.
use trackdown.Prelude.{
  ℕ, zero, suc, ◌+◌, ◌<◌, Text, Bool, true, false, ◌||◌, List, [], ◌∷◌, Option, none, some, ℤ, pos,
  negsuc, ltb, ◌==◌, if◌then◌else◌, is_empty, length, take, drop,
}
use trackdown.Protocol.Types.{EnvelopeHeader, ItemHeader, Item, Envelope}
use trackdown.Protocol.Space.{trim_space}
pub mod Fuel
pub mod RoundTrip

-- What `json.Unmarshal` makes of a text, for the two header structs.
pub record HeaderJson : Type 0 where
  pub envelope_header : Text → Option EnvelopeHeader
  pub item_header : Text → Option ItemHeader

pub data ParseError : Type 0 where
  bad_envelope_header bad_item_header short_payload : ParseError

-- A parse returns, fails or panics; `stuck` is no outcome of the source: the fuel ran out.
pub data Parsed {ℓ} (A : Type ℓ) : Type ℓ where
  ok : A → Parsed A
  err : ParseError → Parsed A
  panic : Parsed A
  stuck : Parsed A

-- `br.ReadBytes('\n')`: the bytes before the first newline, whether there is none, and the rest
unfoldable pub read_bytes : Text → Text × Bool × Text
read_bytes [] = ([], true, [])
read_bytes (c ∷ cs) =
    let (line, at_eof, rest) = read_bytes cs in
    if c == 10 then ([], false, cs) else (c ∷ line, at_eof, rest)

-- `bytes.TrimSuffix(line, "\r")`
unfoldable pub trim_cr : Text → Text
trim_cr [] = []
trim_cr (c ∷ []) = if c == 13 then [] else c ∷ []
trim_cr (c ∷ d ∷ cs) = c ∷ trim_cr (d ∷ cs)

-- `readLine`
unfoldable pub read_line : Text → Text × Bool × Text
unfolding read_bytes trim_cr
read_line text = let (line, at_eof, rest) = read_bytes text in (trim_cr line, at_eof, rest)

-- `consumeNewline`
unfoldable pub consume_newline : Text → Text
consume_newline [] = []
consume_newline (c ∷ cs) = if c == 10 then cs else c ∷ cs

-- `json.Unmarshal` into the zero header, unless the line is blank
unfoldable pub no_header : EnvelopeHeader
no_header = record { event_id = []; sent_at = []; dsn = []; sdk = none }

-- An item is put before those that follow it.
abbrev pub prepend : Item → Parsed (List Item) → Parsed (List Item)
prepend item (ok items) = ok (item ∷ items)
prepend item (err e) = err e
prepend item panic = panic
prepend item stuck = stuck

abbrev pub item_of : ItemHeader → Text → Item
item_of h payload = record { header = h; payload = payload }

abbrev pub with_header : EnvelopeHeader → Parsed (List Item) → Parsed Envelope
with_header h (ok items) = ok (record { header = h; items = items })
with_header h (err e) = err e
with_header h panic = panic
with_header h stuck = stuck

unfoldable pub parse_header : HeaderJson → Text → Option EnvelopeHeader
unfolding no_header
parse_header json line =
    let trimmed = trim_space line in
    if is_empty trimmed then some no_header else json.envelope_header trimmed

module _ (json : HeaderJson) (alloc_limit : ℕ) where
  -- `make([]byte, n)` panics on a negative or too large length.
  abbrev pub can_make : ℤ → Option ℕ
  can_make (pos n) = if ltb alloc_limit n then none else some n
  can_make (negsuc n) = none

  -- The loop of `ParseEnvelope`, from the item header on. `at_eof` is that of its line.
  unfoldable pub parse_payload :
      (Text → Parsed (List Item)) → ItemHeader → Bool → Text → Option ℤ → Parsed (List Item)
  parse_payload more h at_eof rest none =
      let (payload, at_eof', rest') = read_line rest in
      let later = more rest' in prepend (item_of h payload) (if at_eof' then ok [] else later)
  parse_payload more h at_eof rest (some len) = elim (can_make len) [
    | none ↦ panic
    | some n ↦
        let later = more (consume_newline (drop n rest)) in
        if ltb (length rest) n
        then err short_payload
        else prepend (item_of h (take n rest)) (if at_eof then ok [] else later)
  ]

  abbrev pub parse_item :
      (Text → Parsed (List Item)) → Bool → Text → Option ItemHeader → Parsed (List Item)
  parse_item more at_eof rest none = err bad_item_header
  parse_item more at_eof rest (some h) = parse_payload more h at_eof rest h.length

  -- The loop of `ParseEnvelope`: the items in the bytes left.
  unfoldable pub parse_items : ℕ → Text → Parsed (List Item)
  unfolding parse_payload
  parse_items fuel [] = ok []
  parse_items zero (c ∷ cs) = stuck
  parse_items (suc fuel) (c ∷ cs) =
      let (line, at_eof, rest) = read_line (c ∷ cs) in
      let later = parse_items fuel rest in
      let item = parse_item (parse_items fuel) at_eof rest (json.item_header line) in
      if is_empty (trim_space line) then (if at_eof then ok [] else later) else item

  -- `ParseEnvelope`
  unfoldable pub parse_envelope : Text → Parsed Envelope
  unfolding parse_items
  parse_envelope text =
      let (line, at_eof, rest) = read_line text in
      elim (parse_header json line) [
        | none ↦ err bad_envelope_header
        | some h ↦ with_header h (parse_items (length rest) rest)
      ]
