-- ===== src/Calls.antt =====
-- Programs that call code outside the repository: database/sql, the service manager. Each call is
-- recorded with the error that it returned, and `replies` says which, after the calls before it.
pub mod Held
pub mod Accepted
use trackdown.Prelude.{Text, Option, none, some, List, [], ◌∷◌, ◌++◌}

-- the calls made so far, the latest first
abbrev pub Trace : Type 0 → Type 0
Trace C = List (C × Option Text)

pub data Outcome (A : Type 0) : Type 0 where
  ok : A → Outcome A
  failed : Text → Outcome A

abbrev pub Program : Type 0 → Type 0 → Type 0
Program C A = Trace C → Outcome A × Trace C

abbrev pub Replies : Type 0 → Type 0
Replies C = Trace C → C → Option Text

abbrev pub continue :
    {C A B : Type 0} → Outcome A × Trace C → (A → Program C B) → Outcome B × Trace C
continue (ok a, t) f = f a t
continue (failed e, t) f = (failed e, t)

infixl 5 ◌>>=◌ ◌>>◌
unfoldable pub ◌>>=◌ : {C A B : Type 0} → Program C A → (A → Program C B) → Program C B
(p >>= f) t = continue (p t) f

unfoldable pub ◌>>◌ : {C B : Type 0} → Program C (Unit {0}) → Program C B → Program C B
p >> q = p >>= λ _. q

unfoldable pub pure : {C A : Type 0} → A → Program C A
pure a t = (ok a, t)

unfoldable pub fail : {C A : Type 0} → Text → Program C A
fail e t = (failed e, t)

module _ {C : Type 0} (replies : Replies C) where
  -- calls whose errors are passed over
  unfoldable pub clean_up : List C → Program C (Unit {0})
  clean_up [] t = (ok tt, t)
  clean_up (c ∷ cs) t = clean_up cs ((c, replies t c) ∷ t)

  abbrev pub checked : List C → Text → Option Text → Program C (Unit {0})
  checked cleanup what none = pure tt
  checked cleanup what (some e) = clean_up cleanup >> fail (what ++ e)

  -- a call; if it returns an error, the clean-up, and the error with words before it
  unfoldable pub step : List C → Text → C → Program C (Unit {0})
  step cleanup what c t = let e = replies t c in checked cleanup what e ((c, e) ∷ t)

  -- a call on whose error the program goes on
  abbrev pub branched :
      {A : Type 0} → Program C A → (Text → Program C A) → Option Text → Program C A
  branched p q none = p
  branched p q (some e) = q e

  unfoldable pub probe : {A : Type 0} → C → Program C A → (Text → Program C A) → Program C A
  probe c p q t = let e = replies t c in branched p q e ((c, e) ∷ t)

abbrev pub wrapped : {A : Type 0} → Text → Outcome A → Outcome A
wrapped what (ok a) = ok a
wrapped what (failed e) = failed (what ++ e)

module _ {C : Type 0} where
  -- a call that returns no error
  unfoldable pub note : C → Program C (Unit {0})
  note c t = (ok tt, (c, none) ∷ t)

  -- `defer`: `last` is run whatever came out, and its own outcome passed over
  unfoldable pub deferred : {A : Type 0} → Program C (Unit {0}) → Program C A → Program C A
  deferred last p t = let (r, t') = p t in (r, (last t').1)

  -- an error with words put before it
  unfoldable pub wrapping : {A : Type 0} → Text → Program C A → Program C A
  wrapping what p t = let (r, t') = p t in (wrapped what r, t')
