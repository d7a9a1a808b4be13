-- ===== src/Protocol/Encode.antt =====
-- event.go: `Timestamp.MarshalJSON`. `json.Marshal` on a string, and `Time.Format` with
-- RFC3339Nano, are arguments.
use trackdown.Prelude.{ℕ, ◌≡◌, refl, Text, codes, str_eq, none, some, ◌∷◌}
use trackdown.Protocol.Types.{Timestamp}
use trackdown.Protocol.Json.{JsonCodec}
use trackdown.Protocol.Space.{trim_space, trim_left, trim_right, is_space}
use trackdown.Protocol.Decode.{decode_timestamp}

-- `Timestamp.MarshalJSON`
unfoldable pub encode_timestamp : (Text → Text) → (ℕ → Text) → Timestamp → Text
encode_timestamp marshal format none = codes "null"
encode_timestamp marshal format (some t) = marshal (format t)

-- A timestamp is read back as it was written, where a marshaled string is in quotes and holds the
-- string, and the format of a time holds the time.
decode_timestamp-encode_timestamp :
    (json : JsonCodec) (marshal : Text → Text) (format : ℕ → Text) (t : Timestamp)
    (inside : Text → Text)
    → ((s : Text) → trim_space (marshal s) ≡ b'"' ∷ inside s)
    → ((s : Text) → json.string (marshal s) ≡ some s)
    → ((n : ℕ) → json.parse_time (format n) ≡ some n)
    → decode_timestamp json (encode_timestamp marshal format t) ≡ some t
unfolding encode_timestamp
decode_timestamp-encode_timestamp json marshal format none inside quoted held timed =
    unfold decode_timestamp trim_space trim_left trim_right is_space str_eq in refl
decode_timestamp-encode_timestamp json marshal format (some n) inside quoted held timed =
    unfold decode_timestamp str_eq in rw (quoted (format n), held (format n), timed n) refl
