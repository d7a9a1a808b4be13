-- ===== src/Examples/Texts.antt =====
-- Fingerprints, titles, payloads and envelopes.
use trackdown.Prelude.{
  ◌≡◌, ◌≢◌, ◌↔◌, refl, Text, codes, none, List, [], ◌∷◌, All, filter, false, true, Bool, ◌&&◌, zero,
  suc, arith, length, ◌%◌, some,
}
use trackdown.Protocol.Types.{Event, Frame, LogEntry}
use trackdown.Protocol.Envelope.{stuck, parse_envelope}
use trackdown.Protocol.Envelope.Fuel.{parse_envelope-ne-stuck}
use trackdown.Grouping.{
  join_nul, components, collapse, filter_in_app, fingerprint, frame_components,
}
use trackdown.Grouping.Separate.{HasNoNul, fingerprint_iff}
use trackdown.Examples.Data.{event, frame, crash, headers}

abbrev trace : List Frame
trace = frame (codes "f") 3 ∷ frame (codes "g") 5 ∷ []

abbrev moved : List Frame
moved = frame (codes "f") 4 ∷ frame (codes "g") 9 ∷ []

abbrev no_nul : Text → Bool
no_nul [] = true
no_nul (zero ∷ s) = false
no_nul (suc n ∷ s) = no_nul s

no_nul-HasNoNul : (s : Text) → no_nul s ≡ true → HasNoNul s
no_nul-HasNoNul [] h = tt
no_nul-HasNoNul (zero ∷ s) h = cc
no_nul-HasNoNul (suc n ∷ s) h = (λ e. omega arith, no_nul-HasNoNul s h)

abbrev none_nul : List Text → Bool
none_nul [] = true
none_nul (s ∷ ss) = no_nul s && none_nul ss

none_nul-HasNoNul : (ss : List Text) → none_nul ss ≡ true → All HasNoNul ss
none_nul-HasNoNul [] h = tt
none_nul-HasNoNul (s ∷ ss) h =
    (no_nul-HasNoNul s (ground arith), none_nul-HasNoNul ss (ground arith))

-- the length of the text, in a byte
abbrev short_hash : Text → Text
short_hash t = length t % 256 ∷ []

-- a crash in another function
abbrev elsewhere : Event
elsewhere = record (event (codes "b")) {
  exception =
      record crash { stacktrace = some (record { frames = frame (codes "main") 3 ∷ [] }) } ∷ [];
}

fingerprint_iff_example :
    (fingerprint short_hash (event (codes "a")) ≡ fingerprint short_hash elsewhere)
    ↔ (components (event (codes "a")) ≡ components elsewhere)
unfolding components frame_components collapse filter_in_app filter join_nul
fingerprint_iff_example =
    fingerprint_iff short_hash (event (codes "a")) elsewhere (λ x. (ground arith, tt))
      (λ e. ground (arith, e)) (none_nul-HasNoNul (components (event (codes "a"))) refl)
      (none_nul-HasNoNul (components elsewhere) refl)

abbrev sent : Event
sent = record (event (codes "b")) { level = codes "error"; exception = []; timestamp = none }

abbrev log : LogEntry
log = record { formatted = []; message = []; params = [] }

parse_envelope-ne-stuck_example : parse_envelope headers 1000 (codes "{}\n{}\n{}\n") ≢ stuck
parse_envelope-ne-stuck_example = parse_envelope-ne-stuck headers 1000 (codes "{}\n{}\n{}\n")
