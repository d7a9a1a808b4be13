-- ===== src/Protocol/Envelope/RoundTrip.antt =====
-- What an SDK sends after the specification of envelopes, and what `ParseEnvelope` makes of it.
use trackdown.Prelude.{
  ℕ, zero, suc, ◌+◌, ◌≤◌, ◌≡◌, refl, sym, ap, ◌∙◌, Text, false, List, [], ◌∷◌, ◌++◌, Option, none,
  some, ℤ, pos, negsuc, arith, length, length-append, drop, take, is_empty, All, Lacks, ltb,
}
use trackdown.Protocol.Types.{EnvelopeHeader, ItemHeader, Item, Envelope}
use trackdown.Protocol.Space.{is_space, trim_left, trim_right, trim_space}
use trackdown.Protocol.Envelope.{
  HeaderJson, Parsed, ok, read_bytes, trim_cr, read_line, consume_newline, prepend, item_of,
  parse_payload, parse_item, parse_header, parse_items, parse_envelope,
}

-- a JSON object on one line
pub record IsObject (text : Text) : Type 0 where
  pub fields : Text
  pub braced : text ≡ b'{' ∷ (fields ++ b'}' ∷ [])
  pub one_line : Lacks 10 text

read_bytes_line :
    (line rest : Text) → Lacks 10 line → read_bytes (line ++ 10 ∷ rest) ≡ (line, false, rest)
unfolding read_bytes
read_bytes_line [] rest h = refl
read_bytes_line (c ∷ line) rest h = rw (read_bytes_line line rest h.1, h.0) refl

trim_cr-brace : (p : Text) → trim_cr (p ++ b'}' ∷ []) ≡ p ++ b'}' ∷ []
unfolding trim_cr
trim_cr-brace [] = refl
trim_cr-brace (c ∷ []) = refl
trim_cr-brace (c ∷ d ∷ p) = ap (λ t. c ∷ t) (trim_cr-brace (d ∷ p))

trim_right-brace : (p : Text) → trim_right (p ++ b'}' ∷ []) ≡ p ++ b'}' ∷ []
unfolding trim_right is_space
trim_right-brace [] = refl
trim_right-brace (c ∷ []) = refl
trim_right-brace (c ∷ d ∷ p) = rw (trim_right-brace (d ∷ p)) refl

module _ {line : Text} (o : IsObject line) where
  read_line-object : (rest : Text) → read_line (line ++ 10 ∷ rest) ≡ (line, false, rest)
  unfolding read_line
  read_line-object rest = rw (read_bytes_line line rest o.one_line) (
      ap (λ t. (t, false, rest))
        (ap trim_cr o.braced ∙ trim_cr-brace (b'{' ∷ o.fields) ∙ sym o.braced))

  trim_space-object : trim_space line ≡ line
  unfolding trim_space trim_left is_space
  trim_space-object = ap trim_space o.braced ∙ trim_right-brace (b'{' ∷ o.fields) ∙ sym o.braced

  object-filled : is_empty line ≡ false
  object-filled = rw o.braced refl

short : (xs ys : Text) → ltb (length (xs ++ ys)) (length xs) ≡ false
short xs ys = ground (arith, length-append xs ys)

module _ {ℓ} {A : Type ℓ} where
  take-append : (xs ys : List A) → take (length xs) (xs ++ ys) ≡ xs
  take-append [] ys = refl
  take-append (x ∷ xs) ys = ap (λ zs. x ∷ zs) (take-append xs ys)

  drop-append : (xs ys : List A) → drop (length xs) (xs ++ ys) ≡ ys
  drop-append [] ys = refl
  drop-append (x ∷ xs) ys = drop-append xs ys

module _ (json : HeaderJson) (alloc_limit : ℕ) (write_header : EnvelopeHeader → Text)
    (write_item : ItemHeader → Text) where
  -- an item, closed by a newline
  abbrev pub write_one : Item → Text → Text
  write_one item rest = write_item item.header ++ 10 ∷ (item.payload ++ 10 ∷ rest)

  abbrev pub write_items : List Item → Text
  write_items [] = []
  write_items (item ∷ items) = write_one item (write_items items)

  abbrev pub write_envelope : Envelope → Text
  write_envelope e = write_header e.header ++ 10 ∷ write_items e.items

  -- A length is that of the payload; without one, the payload is a line that does not end in CR.
  abbrev pub FitsLength : Text → Option ℤ → Type 0
  FitsLength payload none = Lacks 10 payload × (trim_cr payload ≡ payload)
  FitsLength payload (some (pos n)) = (n ≡ length payload) × (n ≤ alloc_limit)
  FitsLength payload (some (negsuc n)) = ⊥

  -- the header is written as an object on one line that `json.Unmarshal` reads back
  abbrev pub Fits : Item → Type 0
  Fits item =
      IsObject (write_item item.header)
      × (json.item_header (write_item item.header) ≡ some item.header)
      × FitsLength item.payload item.header.length

  parse_payload_fits :
      (more : Text → Parsed (List Item)) (h : ItemHeader) (payload rest : Text) (len : Option ℤ)
      → FitsLength payload len
      → parse_payload json alloc_limit more h false (payload ++ 10 ∷ rest) len
        ≡ prepend (item_of h payload) (more rest)
  unfolding parse_payload read_line consume_newline
  parse_payload_fits more h payload rest none f = rw (read_bytes_line payload rest f.0, f.1) refl
  parse_payload_fits more h payload rest (some (pos n)) f = ground (
    arith,
    f,
    short payload (10 ∷ rest),
    take-append payload (10 ∷ rest),
    drop-append payload (10 ∷ rest),
  )
  parse_payload_fits more h payload rest (some (negsuc n)) f = absurd f

  written_length : (item : Item) (rest : Text) → length rest + 2 ≤ length (write_one item rest)
  written_length item rest = omega (
    arith,
    length-append (write_item item.header) (10 ∷ (item.payload ++ 10 ∷ rest)),
    length-append item.payload (10 ∷ rest),
  )

  parse_items_line :
      (fuel : ℕ) (line rest : Text)
      → IsObject line
      → parse_items json alloc_limit (suc fuel) (line ++ 10 ∷ rest)
        ≡ parse_item json alloc_limit
            (parse_items json alloc_limit fuel)
            false
            rest
            (json.item_header line)
  unfolding parse_items
  parse_items_line fuel [] rest o = absurd (cc (o.braced))
  parse_items_line fuel (c ∷ line) rest o = rw (read_line-object o rest, trim_space-object o) refl

  parse_items-write_items :
      (fuel : ℕ) (items : List Item)
      → All Fits items
      → length (write_items items) ≤ fuel
      → parse_items json alloc_limit fuel (write_items items) ≡ ok items
  parse_items-write_items fuel [] f h = unfold parse_items in refl
  parse_items-write_items zero (item ∷ items) f h =
      absurd (omega (arith, written_length item (write_items items)))
  parse_items-write_items (suc fuel) (item ∷ items) f h =
      parse_items_line fuel (write_item item.header) (item.payload ++ 10 ∷ write_items items) f.0.0
      ∙ rw f.0.1 (
          parse_payload_fits (parse_items json alloc_limit fuel) item.header item.payload
            (write_items items) item.header.length f.0.2
          ∙ ap (prepend item) (
              parse_items-write_items fuel items f.1
                (omega (arith, written_length item (write_items items)))))

  header_read_back :
      (h : EnvelopeHeader)
      → IsObject (write_header h)
      → json.envelope_header (write_header h) ≡ some h
      → parse_header json (write_header h) ≡ some h
  unfolding parse_header
  header_read_back h o read = rw (trim_space-object o, object-filled o) read

  -- An envelope written after the specification, a header to a line and a newline after each
  -- payload, is parsed as it was meant: its header, and every item with its payload, byte for byte
  -- and in order. The headers are JSON objects on one line that encoding/json reads back; a length
  -- that a header gives is the payload's, and can be allocated; a payload without one is a line that
  -- does not end in CR.
  pub parse_envelope-write_envelope :
      (e : Envelope)
      → IsObject (write_header e.header)
      → json.envelope_header (write_header e.header) ≡ some e.header
      → All Fits e.items
      → parse_envelope json alloc_limit (write_envelope e) ≡ ok e
  unfolding parse_envelope
  parse_envelope-write_envelope e o read f = ground (
    arith,
    read_line-object o (write_items e.items),
    header_read_back e.header o read,
    parse_items-write_items (length (write_items e.items)) e.items f (omega arith),
  )
