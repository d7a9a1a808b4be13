-- ===== src/Protocol/Envelope/Fuel.antt =====
-- The loop of `ParseEnvelope` ends on every input: each round takes a byte at least.
use trackdown.Prelude.{
  ℕ, zero, suc, ◌≤◌, ◌≢◌, refl, Text, Bool, true, false, List, [], ◌∷◌, Option, none, some, ℤ, pos,
  negsuc, arith, length, length-drop, drop, take, is_empty, if◌then◌else◌,
}
use trackdown.Protocol.Types.{EnvelopeHeader, ItemHeader, Item}
use trackdown.Protocol.Space.{trim_space}
use trackdown.Protocol.Envelope.{
  HeaderJson, Parsed, ok, err, panic, stuck, read_bytes, read_line, consume_newline, prepend,
  parse_payload, parse_item, parse_header, with_header, parse_items, parse_envelope, item_of,
  bad_envelope_header,
}

read_bytes-shorter : (text : Text) → length (read_bytes text).2 ≤ length text
unfolding read_bytes
read_bytes-shorter [] = omega arith
read_bytes-shorter (c ∷ cs) = ground (arith, read_bytes-shorter cs)

read_line-shorter : (text : Text) → length (read_line text).2 ≤ length text
unfolding read_line
read_line-shorter text = read_bytes-shorter text

read_line-shorter_cons : (c : ℕ) (cs : Text) → length (read_line (c ∷ cs)).2 ≤ length cs
unfolding read_line read_bytes
read_line-shorter_cons c cs = ground (arith, read_bytes-shorter cs)

consume_newline-shorter : (text : Text) → length (consume_newline text) ≤ length text
unfolding consume_newline
consume_newline-shorter [] = omega arith
consume_newline-shorter (c ∷ cs) = ground arith

prepend-ne-stuck : (item : Item) (r : Parsed (List Item)) → r ≢ stuck → prepend item r ≢ stuck
prepend-ne-stuck item (ok items) h e = cc
prepend-ne-stuck item (err x) h e = cc
prepend-ne-stuck item panic h e = cc
prepend-ne-stuck item stuck h e = h e

if-ne-stuck :
    (b : Bool) (r s : Parsed (List Item)) → r ≢ stuck → s ≢ stuck → (if b then r else s) ≢ stuck
if-ne-stuck true r s h k e = h e
if-ne-stuck false r s h k e = k e

with_header-ne-stuck :
    (h : EnvelopeHeader) (r : Parsed (List Item)) → r ≢ stuck → with_header h r ≢ stuck
with_header-ne-stuck h (ok items) k e = cc
with_header-ne-stuck h (err x) k e = cc
with_header-ne-stuck h panic k e = cc
with_header-ne-stuck h stuck k e = k refl

stop-ne-stuck :
    (at_eof : Bool) (r : Parsed (List Item)) → r ≢ stuck → (if at_eof then ok [] else r) ≢ stuck
stop-ne-stuck true r h e = cc
stop-ne-stuck false r h e = h e

module _ (json : HeaderJson) (alloc_limit : ℕ) where
  parse_payload-ne-stuck :
      (more : Text → Parsed (List Item)) (h : ItemHeader) (at_eof : Bool) (rest : Text)
      → ((t : Text) → length t ≤ length rest → more t ≢ stuck)
      → (len : Option ℤ) → parse_payload json alloc_limit more h at_eof rest len ≢ stuck
  unfolding parse_payload
  parse_payload-ne-stuck more h at_eof rest ends none =
      let (payload, at_eof', rest') = read_line rest in
      prepend-ne-stuck (item_of h payload) (if at_eof' then ok [] else more rest')
        (stop-ne-stuck at_eof' (more rest') (ends rest' (read_line-shorter rest)))
  parse_payload-ne-stuck more h at_eof rest ends (some (negsuc n)) = λ e. cc
  parse_payload-ne-stuck more h at_eof rest ends (some (pos n)) =
      let rest' = consume_newline (drop n rest) in
      ground (
        arith,
        prepend-ne-stuck (item_of h (take n rest)) (if at_eof then ok [] else more rest') (
            stop-ne-stuck at_eof (more rest') (
              ends rest'
                (omega (arith, consume_newline-shorter (drop n rest), length-drop n rest)))),
      )

  parse_item-ne-stuck :
      (more : Text → Parsed (List Item)) (at_eof : Bool) (rest : Text)
      → ((t : Text) → length t ≤ length rest → more t ≢ stuck)
      → (h : Option ItemHeader) → parse_item json alloc_limit more at_eof rest h ≢ stuck
  parse_item-ne-stuck more at_eof rest ends none = λ e. cc
  parse_item-ne-stuck more at_eof rest ends (some h) =
      parse_payload-ne-stuck more h at_eof rest ends h.length

  parse_items-ne-stuck :
      (fuel : ℕ) (text : Text) → length text ≤ fuel → parse_items json alloc_limit fuel text ≢ stuck
  unfolding parse_items
  parse_items-ne-stuck fuel [] h = λ e. cc
  parse_items-ne-stuck zero (c ∷ cs) h = absurd (omega arith)
  parse_items-ne-stuck (suc fuel) (c ∷ cs) h =
      let (line, at_eof, rest) = read_line (c ∷ cs) in
      let shorter = read_line-shorter_cons c cs in
      if-ne-stuck (is_empty (trim_space line)) _ _
        (stop-ne-stuck at_eof (parse_items json alloc_limit fuel rest)
          (parse_items-ne-stuck fuel rest (omega arith)))
        (parse_item-ne-stuck (parse_items json alloc_limit fuel) at_eof rest
          (λ t k. parse_items-ne-stuck fuel t (omega arith)) (json.item_header line))

  -- Whatever bytes a client posts, `ParseEnvelope` ends: it returns an envelope or an error, or it
  -- panics, and never runs on.
  pub parse_envelope-ne-stuck : (text : Text) → parse_envelope json alloc_limit text ≢ stuck
  unfolding parse_envelope
  parse_envelope-ne-stuck text = ends (parse_header json (read_line text).0)
    where
      rest : Text
      rest = (read_line text).2

      items : Parsed (List Item)
      items = parse_items json alloc_limit (length rest) rest

      ends :
          (header : Option EnvelopeHeader)
          → elim header [ none ↦ err bad_envelope_header | some h ↦ with_header h items ] ≢ stuck
      ends none = λ e. cc
      ends (some h) =
          with_header-ne-stuck h items (parse_items-ne-stuck (length rest) rest (omega arith))
