-- ===== src/Ingest/Body.antt =====
-- ingest.go: what the handlers read of a request.
use trackdown.Prelude.{
  ℕ, ◌*◌, ◌^◌, Text, codes, Bool, not, ◌&&◌, ◌||◌, Option, none, some, is_empty, if◌then◌else◌, leb,
  take, length, str_eq,
}
use trackdown.Protocol.Envelope.{HeaderJson}
use trackdown.Protocol.Json.{JsonCodec}

-- The bytes that a reader gives, and whether it then fails.
abbrev pub Stream : Type 0
Stream = Text × Bool

-- A request, as far as the handlers read it; `auth` and `query_key` are empty if absent.
pub record Request : Type 0 where
  pub remote_addr : Text
  pub project_id : Text
  pub auth : Text
  pub query_key : Text
  pub content_encoding : Text
  pub body : Stream

-- The code that ingest calls and that is not the repository's: `net.SplitHostPort` (the host),
-- the pattern `sentry_key=([^,\s]+)`, `gzip.NewReader`, encoding/json and SHA-256.
pub record Services : Type 0 where
  pub host_of : Text → Option Text
  pub match_key : Text → Option Text
  pub gunzip : Text → Option Stream
  pub headers : HeaderJson
  pub alloc_limit : ℕ
  pub json : JsonCodec
  pub sha256 : Text → Text

-- `maxEnvelopeSize`
abbrev pub max_envelope_size : ℕ
max_envelope_size = 20 * 2 ^ 20

-- `maxDecompressedEnvelopeSize`
abbrev pub max_decompressed_envelope_size : ℕ
max_decompressed_envelope_size = 100 * 2 ^ 20

-- `io.ReadAll(io.LimitReader(r, limit))`: a failure past the limit is not seen
unfoldable pub read_limited : ℕ → Stream → Option Text
read_limited limit (bytes, fails) =
    if fails && not (leb limit (length bytes)) then none else some (take limit bytes)

abbrev inflate : Option Stream → Option Text
inflate none = none
inflate (some s) = read_limited max_decompressed_envelope_size s

abbrev decode_body : Services → Text → Option Text → Option Text
decode_body services encoding none = none
decode_body services encoding (some raw) =
    if is_empty encoding || str_eq encoding (codes "identity")
    then some raw
    else if str_eq encoding (codes "gzip")
    then inflate (services.gunzip raw)
    else none

-- `readEnvelopeBody`
unfoldable pub read_envelope_body : Services → Request → Option Text
unfolding read_limited
read_envelope_body services r =
    decode_body services r.content_encoding (read_limited max_envelope_size r.body)

-- `clientIP`
unfoldable pub client_ip : Services → Request → Text
client_ip services r = elim (services.host_of r.remote_addr) [
  | none ↦ r.remote_addr
  | some host ↦ host
]

abbrev query_key_of : Request → Option Text
query_key_of r = if not (is_empty r.query_key) then some r.query_key else none

-- `extractPublicKey`
unfoldable pub extract_public_key : Services → Request → Option Text
extract_public_key services r =
    if is_empty r.auth
    then query_key_of r
    else (elim (services.match_key r.auth) [ none ↦ query_key_of r | some key ↦ some key ])
