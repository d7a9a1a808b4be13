-- ===== src/Store/Outbox/Due.antt =====
-- What `DueAlerts` returns.
use mathlib.Core.List.{Perm}
use trackdown.Prelude.{
  ℕ, zero, suc, ◌≤◌, ◌≡◌, refl, true, false, List, [], ◌∷◌, arith, ◌++◌, length, take, drop,
  take-append-drop, All, All-take, filter, filter-All, order_by, IsOrdered, order_by-IsOrdered,
  order_by-perm, All-order_by, All-map,
}
use trackdown.Store.Types.{pending, Time, OutboxEntry, Tables}
use trackdown.Store.Query.{ok, select_rows, calm}
use trackdown.Store.Outbox.{is_due, due_earlier, due_rows, due_alerts}

pub due_earlier_total : (a b : OutboxEntry) → due_earlier a b ≡ false → due_earlier b a ≡ true
unfolding due_earlier
due_earlier_total a b h = ground arith

pub due_earlier_trans :
    (a b c : OutboxEntry) → due_earlier a b ≡ true → due_earlier b c ≡ true → due_earlier a c ≡ true
unfolding due_earlier
due_earlier_trans a b c h k = ground arith

length-take_le {ℓ} : {A : Type ℓ} (n : ℕ) (xs : List A) → length (take n xs) ≤ n
length-take_le zero xs = omega arith
length-take_le (suc n) [] = omega arith
length-take_le (suc n) (x ∷ xs) = omega (arith, length-take_le n xs)

-- `DueAlerts` returns pending rows that are due, at most `limit` of them. With those that the
-- limit cut off they are all such rows, in one order: the earliest due first and, among those due
-- at one time, the smallest id first.
pub due_alerts_lem :
    (now : Time) (limit : ℕ) (t : Tables) (time : Time)
    → (due cut_off : List OutboxEntry) × (due_alerts now limit (calm t time)
        ≡ (ok due, calm t time))
      × All (λ e. (e.status ≡ pending) × (e.next_attempt_at ≤ now)) due
      × (length due ≤ limit)
      × Perm (due ++ cut_off) (filter (is_due now) t.outbox)
      × IsOrdered due_earlier (due ++ cut_off)
unfolding due_alerts due_rows is_due select_rows
due_alerts_lem now limit t time =
    let rows = order_by due_earlier (filter (is_due now) t.outbox) in
    (
      take limit rows,
      drop limit rows,
      refl,
      All-take _ limit rows (
          All-order_by due_earlier _ _ (
            All-map (filter (is_due now) t.outbox) (λ e h. ground arith)
              (filter-All (is_due now) t.outbox))),
      length-take_le limit rows,
      rw take-append-drop (order_by-perm due_earlier (filter (is_due now) t.outbox)),
      rw take-append-drop (
          order_by-IsOrdered due_earlier due_earlier_total due_earlier_trans
            (filter (is_due now) t.outbox)),
    )
