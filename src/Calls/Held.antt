-- ===== src/Calls/Held.antt =====
-- Which handles a program holds: what its calls opened and did not close.
use trackdown.Prelude.{
  ◌≡◌, refl, ◌∙◌, ap, Text, Bool, Option, none, some, List, [], ◌∷◌, ◌++◌, if◌then◌else◌,
}
use trackdown.Calls.{
  Trace, Outcome, ok, failed, Program, Replies, ◌>>◌, fail, continue, ◌>>=◌, pure, clean_up,
  checked, step, probe, branched, note, deferred, wrapped, wrapping,
}

-- what a call does to the handles if it succeeds; a handle is closed also by a close that fails
pub data Effect (R : Type 0) : Type 0 where
  opens closes : R → Effect R
  neither : Effect R

module _ {C R : Type 0} (same : R → R → Bool) (effect : C → Effect R) where
  -- none: the handle is not held, so it was closed twice or never opened
  abbrev pub remove : R → List R → Option (List R)
  remove r [] = none
  remove r (q ∷ qs) =
      let later : Option (List R) = elim (remove r qs) [ none ↦ none | some rs ↦ some (q ∷ rs) ] in
      if same q r then some qs else later

  abbrev pub after : Effect R → Option Text → Option (List R) → Option (List R)
  after e err none = none
  after (opens r) none (some held) = some (r ∷ held)
  after (opens r) (some err) (some held) = some held
  after (closes r) err (some held) = remove r held
  after neither err (some held) = some held

  abbrev pub held : Trace C → Option (List R)
  held [] = some []
  held ((c, e) ∷ t) = after (effect c) e (held t)

  abbrev pub held_after : List C → Option (List R) → Option (List R)
  held_after [] h = h
  held_after (c ∷ cs) h = held_after cs (after (effect c) none h)

  -- From the handles `before` the program comes to `done` if it succeeds, to `undone` if it fails.
  abbrev pub Ends : {A : Type 0} → List R → List R → Outcome A × Trace C → Type 0
  Ends done undone (ok a, t) = held t ≡ some done
  Ends done undone (failed e, t) = held t ≡ some undone

  abbrev pub Holds : {A : Type 0} → List R → List R → List R → Program C A → Type 0
  Holds before done undone p = (t : Trace C) → held t ≡ some before → Ends done undone (p t)

module _ {C R : Type 0} (same : R → R → Bool) (effect : C → Effect R) where
  pub >>=-Holds :
      {A B : Type 0} (before mid done undone : List R) (p : Program C A) (f : A → Program C B)
      → Holds same effect before mid undone p
      → ((a : A) → Holds same effect mid done undone (f a))
      → Holds same effect before done undone (p >>= f)
  unfolding ◌>>=◌
  >>=-Holds {A} before mid done undone p f h k t start = go (p t) (h t start)
    where
      go :
          (r : Outcome A × Trace C)
          → Ends same effect mid undone r
          → Ends same effect done undone (continue r f)
      go (ok a, t') e = k a t' e
      go (failed msg, t') e = e

  pub >>-Holds :
      {A : Type 0} (before mid done undone : List R) (p : Program C (Unit {0})) (q : Program C A)
      → Holds same effect before mid undone p
      → Holds same effect mid done undone q
      → Holds same effect before done undone (p >> q)
  unfolding ◌>>◌
  >>-Holds before mid done undone p q h k = >>=-Holds before mid done undone p (λ u. q) h (λ u. k)

  module _ (replies : Replies C) where
    after_closing :
        (c : C) (e : Option Text) (h : Option (List R)) (r : R)
        → effect c ≡ closes r
        → after same effect (effect c) e h ≡ after same effect (effect c) none h
    after_closing c none h r k = refl
    after_closing c (some e) none r k = refl
    after_closing c (some e) (some h) r k = rw k refl

    -- the clean-up consists of closing calls, whose errors do not matter
    abbrev pub AllClose : List C → Type 0
    AllClose [] = Unit
    AllClose (c ∷ cs) = ((r : R) × (effect c ≡ closes r)) × AllClose cs

    clean_up-held :
        (cs : List C) (t : Trace C)
        → AllClose cs
        → held same effect (clean_up replies cs t).1
          ≡ held_after same effect cs (held same effect t)
    unfolding clean_up
    clean_up-held [] t a = refl
    clean_up-held (c ∷ cs) t a =
        clean_up-held cs ((c, replies t c) ∷ t) a.1
        ∙ ap (held_after same effect cs)
            (after_closing c (replies t c) (held same effect t) a.0.0 a.0.1)

    clean_up_succeeds :
        (done undone : List R) (cs : List C) (t : Trace C)
        → held same effect (clean_up replies cs t).1 ≡ some done
        → Ends same effect done undone (clean_up replies cs t)
    unfolding clean_up
    clean_up_succeeds done undone [] t h = h
    clean_up_succeeds done undone (c ∷ cs) t h =
        clean_up_succeeds done undone cs ((c, replies t c) ∷ t) h

    clean_up_fails :
        (done undone : List R) (cs : List C) (msg : Text) (t : Trace C)
        → held same effect (clean_up replies cs t).1 ≡ some undone
        → Ends same effect done undone ((clean_up replies cs >> fail {A = Unit {0}} msg) t)
    unfolding clean_up ◌>>◌ ◌>>=◌ fail
    clean_up_fails done undone [] msg t h = h
    clean_up_fails done undone (c ∷ cs) msg t h =
        clean_up_fails done undone cs msg ((c, replies t c) ∷ t) h

    pub step-Holds :
        (before done undone : List R) (cleanup : List C) (what : Text) (c : C)
        → AllClose cleanup
        → after same effect (effect c) none (some before) ≡ some done
        → ((e : Text)
            → held_after same effect cleanup (after same effect (effect c) (some e) (some before))
              ≡ some undone)
        → Holds same effect before done undone (step replies cleanup what c)
    unfolding step pure
    step-Holds before done undone cleanup what c closing success failure t start = go (replies t c)
      where
        go :
            (e : Option Text)
            → Ends same effect done undone (checked replies cleanup what e ((c, e) ∷ t))
        go none = rw start success
        go (some e) =
            clean_up_fails done undone cleanup (what ++ e) ((c, some e) ∷ t)
              (clean_up-held cleanup ((c, some e) ∷ t) closing ∙ rw start (failure e))

  pub probe-Holds :
      (replies : Replies C) {A : Type 0} (before mid other done undone : List R) (c : C)
      (p : Program C A) (q : Text → Program C A)
      → after same effect (effect c) none (some before) ≡ some mid
      → ((e : Text) → after same effect (effect c) (some e) (some before) ≡ some other)
      → Holds same effect mid done undone p
      → ((e : Text) → Holds same effect other done undone (q e))
      → Holds same effect before done undone (probe replies c p q)
  unfolding probe
  probe-Holds replies before mid other done undone c p q success failure h k t start =
      go (replies t c)
    where
      go : (e : Option Text) → Ends same effect done undone (branched replies p q e ((c, e) ∷ t))
      go none = h ((c, none) ∷ t) (rw start success)
      go (some e) = k e ((c, some e) ∷ t) (rw start (failure e))

  pub note-Holds :
      (before done undone : List R) (c : C)
      → after same effect (effect c) none (some before) ≡ some done
      → Holds same effect before done undone (note c)
  unfolding note
  note-Holds before done undone c h t start = rw start h

  -- handles given back by calls whose errors do not matter
  pub clean_up-Holds :
      (replies : Replies C) (before done undone : List R) (cs : List C)
      → AllClose replies cs
      → held_after same effect cs (some before) ≡ some done
      → Holds same effect before done undone (clean_up replies cs)
  clean_up-Holds replies before done undone cs closing h t start =
      clean_up_succeeds replies done undone cs t (clean_up-held replies cs t closing ∙ rw start h)

  pub Ends-held :
      {A : Type 0} (hs : List R) (r : Outcome A × Trace C)
      → Ends same effect hs hs r
      → held same effect r.1 ≡ some hs
  Ends-held hs (ok a, t) h = h
  Ends-held hs (failed msg, t) h = h

  pub deferred-Holds :
      {A : Type 0} (before mid midway done undone : List R) (last : Program C (Unit {0}))
      (p : Program C A)
      → Holds same effect mid done done last
      → Holds same effect midway undone undone last
      → Holds same effect before mid midway p
      → Holds same effect before done undone (deferred last p)
  unfolding deferred
  deferred-Holds {A} before mid midway done undone last p success failure h t start =
      go (p t) (h t start)
    where
      go :
          (r : Outcome A × Trace C)
          → Ends same effect mid midway r
          → Ends same effect done undone (r.0, (last r.1).1)
      go (ok a, t') k = Ends-held done (last t') (success t' k)
      go (failed msg, t') k = Ends-held undone (last t') (failure t' k)

  pub wrapping-Holds :
      {A : Type 0} (before done undone : List R) (what : Text) (p : Program C A)
      → Holds same effect before done undone p
      → Holds same effect before done undone (wrapping what p)
  unfolding wrapping
  wrapping-Holds {A} before done undone what p h t start = go (p t) (h t start)
    where
      go :
          (r : Outcome A × Trace C)
          → Ends same effect done undone r
          → Ends same effect done undone (wrapped what r.0, r.1)
      go (ok a, t') k = k
      go (failed msg, t') k = k
