-- ===== src/Retry/Turn.antt =====
-- Which alerts a tick of the retry loop comes to: its batch is full at twenty, the earliest due first.
use trackdown.Prelude.{Bool, ◌&&◌, ◌||◌, ltb, leb, ◌==◌}
use trackdown.Store.Types.{OutboxEntry}

-- The turn of a row: it became due before the other, or at that time with an id that is not larger.
abbrev pub no_later : OutboxEntry → OutboxEntry → Bool
no_later y x =
    ltb y.next_attempt_at x.next_attempt_at
    || (y.next_attempt_at == x.next_attempt_at && leb y.id x.id)
