-- ===== src/Examples/Requests.antt =====
-- The envelope endpoint and the rate limiter.
use trackdown.Prelude.{
  ℕ, ◌+◌, ◌*◌, ◌-◌, ◌≤◌, ◌≡◌, refl, Text, codes, true, false, Option, some, none, [], ◌∷◌, All,
  find, str_eq, pos, arith,
}
use trackdown.Protocol.Types.{Envelope}
use trackdown.Protocol.Envelope.{
  ok, parse_envelope, read_line, read_bytes, parse_header, parse_items, parse_payload, trim_cr,
}
use trackdown.Protocol.Space.{trim_space, trim_left, trim_right, is_space}
use trackdown.Protocol.Decode.{parse_event, decode_event, normalize}
use trackdown.Grouping.{fingerprint, title}
use trackdown.Store.Projects.{ensure_project, has_project_id}
use trackdown.Store.Events.{
  save_event, save_body, store_event, is_event, has_fingerprint, upsert_issue, insert_event,
  new_event,
}
use trackdown.Store.Types.{second, empty_tables}
use trackdown.Store.Query.{calm, execute, statement, transaction, reach, select_row}
use trackdown.Ratelimit.{Limiter, allow, has_key}
use trackdown.Ratelimit.Rate.{granted, granted_bound, IsTimeline}
use trackdown.Ingest.Body.{Request, read_envelope_body, read_limited, extract_public_key, client_ip}
use trackdown.Ingest.{Server, RateLimiter, serve_envelope, save_items, save_item, queue_notice}
use trackdown.Ingest.Refused.{Untouched, serve_envelope_refused}
use trackdown.Ingest.Stored.{IsStored, serve_envelope-IsStored}
use trackdown.Examples.Data.{shop, services, request}

-- one bucket of 2 tokens, 10 units to a token, and one unit for each nanosecond
abbrev limiter : ℕ → Limiter
limiter burst = record {
  buckets = (codes "ip", record { tokens = pos burst; last_seen = 5 }) ∷ [];
  unit = 10;
  rate = 1;
  burst = burst;
  stale_after = 600;
  sweep_at_size = 1000;
}

abbrev rate_limiter : RateLimiter Limiter
rate_limiter = record { allow = allow }

abbrev server : Server Limiter
server = record { session = calm empty_tables (3 * second); limiter = limiter 20; pending = [] }

granted_bound_example :
    (granted (codes "ip") (6 ∷ 7 ∷ 8 ∷ []) (limiter 20)).0 * 10 ≤ 20 + (9 - 5) * 1
unfolding find has_key str_eq IsTimeline
granted_bound_example =
    granted_bound (codes "ip") (6 ∷ 7 ∷ 8 ∷ []) (limiter 20) 9 (codes "ip") 20 5 refl
      (omega arith, (omega arith, (omega arith, omega arith)))

-- a request without a key
abbrev keyless : Request
keyless = record request { query_key = [] }

serve_envelope_refused_example :
    Untouched server (serve_envelope services (some rate_limiter) true keyless server).1
unfolding serve_envelope allow str_eq
serve_envelope_refused_example =
    serve_envelope_refused services (some rate_limiter) true keyless server tt

abbrev no_limiter : Option (RateLimiter Limiter)
no_limiter = none

serve_envelope-IsStored_example :
    (body : Text) × (env : Envelope) × (read_envelope_body services request ≡ some body)
    × (parse_envelope services.headers services.alloc_limit body ≡ ok env)
    × (codes "b" ≡ env.header.event_id)
    × All
        (IsStored services no_limiter false shop
          (serve_envelope services no_limiter false request server).1.session.tables)
        env.items
unfolding serve_envelope read_envelope_body read_limited extract_public_key client_ip parse_envelope
    parse_header parse_items parse_payload read_line read_bytes trim_cr trim_space trim_left
    trim_right is_space str_eq ensure_project execute statement find has_project_id save_items
    save_item parse_event decode_event normalize save_event save_body store_event transaction reach
    select_row is_event has_fingerprint upsert_issue insert_event new_event fingerprint title
    queue_notice
serve_envelope-IsStored_example =
    serve_envelope-IsStored services no_limiter false request server (codes "b") refl
