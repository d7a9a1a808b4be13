-- ===== src/Calls/Accepted.antt =====
-- What a program has done that succeeds: its calls in order, of which each was accepted.
use trackdown.Prelude.{
  ◌≡◌, refl, sym, ◌∙◌, ap, Text, Option, none, some, List, [], ◌∷◌, ◌++◌, append_assoc,
}
use trackdown.Calls.{
  Trace, Outcome, ok, failed, Program, Replies, ◌>>◌, ◌>>=◌, continue, pure, fail, checked,
  clean_up, step, note, wrapping, wrapped,
}

module _ {C : Type 0} where
  -- calls that returned no error, the latest first
  abbrev pub accepted : List C → Trace C
  accepted [] = []
  accepted (c ∷ cs) = (c, none) ∷ accepted cs

  abbrev pub Logs : List C → Trace C → Outcome (Unit {0}) × Trace C → Type 0
  Logs cs t r = r.0 ≡ ok tt → r.1 ≡ accepted cs ++ t

  -- a success of the program has made the calls `cs`, the latest first, and no other
  abbrev pub Makes : List C → Program C (Unit {0}) → Type 0
  Makes cs p = (t : Trace C) → Logs cs t (p t)

  accepted-append : (cs ds : List C) → accepted (cs ++ ds) ≡ accepted cs ++ accepted ds
  accepted-append [] ds = refl
  accepted-append (c ∷ cs) ds = ap (λ t. (c, none) ∷ t) (accepted-append cs ds)

  pub >>-Makes :
      (cs ds : List C) (p q : Program C (Unit {0}))
      → Makes cs p
      → Makes ds q
      → Makes (ds ++ cs) (p >> q)
  unfolding ◌>>◌ ◌>>=◌
  >>-Makes cs ds p q h k t = go (p t) (h t)
    where
      go :
          (r : Outcome (Unit {0}) × Trace C) → Logs cs t r → Logs (ds ++ cs) t (continue r (λ u. q))
      go (ok u, t') same e =
          k t' e
          ∙ ap (λ s. accepted ds ++ s) (same refl)
          ∙ sym (append_assoc (accepted ds) (accepted cs) t)
          ∙ ap (λ s. s ++ t) (sym (accepted-append ds cs))
      go (failed msg, t') same e = cc

  pub note-Makes : (c : C) → Makes (c ∷ []) (note c)
  unfolding note
  note-Makes c t e = refl

  module _ (replies : Replies C) where
    fails-Logs :
        (cs cleanup : List C) (t t' : Trace C) (msg : Text)
        → Logs cs t ((clean_up replies cleanup >> fail {A = Unit {0}} msg) t')
    unfolding ◌>>◌ ◌>>=◌ fail clean_up
    fails-Logs cs [] t t' msg e = cc
    fails-Logs cs (c ∷ cleanup) t t' msg e = fails-Logs cs cleanup t ((c, replies t' c) ∷ t') msg e

    pub step-Makes :
        (cleanup : List C) (what : Text) (c : C) → Makes (c ∷ []) (step replies cleanup what c)
    unfolding step pure
    step-Makes cleanup what c t = go (replies t c)
      where
        go : (e : Option Text) → Logs (c ∷ []) t (checked replies cleanup what e ((c, e) ∷ t))
        go none = λ k. refl
        go (some e) = fails-Logs (c ∷ []) cleanup t ((c, some e) ∷ t) (what ++ e)

  pub wrapping-Makes :
      (cs : List C) (what : Text) (p : Program C (Unit {0}))
      → Makes cs p
      → Makes cs (wrapping what p)
  unfolding wrapping
  wrapping-Makes cs what p h t = go (p t) (h t)
    where
      go : (r : Outcome (Unit {0}) × Trace C) → Logs cs t r → Logs cs t (wrapped what r.0, r.1)
      go (ok u, t') k e = k refl
      go (failed msg, t') k e = cc
