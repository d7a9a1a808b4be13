-- ===== src/Grouping/Titles.antt =====
-- Titles.
use trackdown.Prelude.{
  ℕ, ◌≡◌, refl, ap, ◌∙◌, Text, false, List, [], ◌∷◌, ◌++◌, Option, none, some, arith, is_empty,
}
use trackdown.Protocol.Types.{Event, Message, Thread, ExceptionValue}
use trackdown.Grouping.{get_last?, components, components_of, title, title_of, message_title}

is_empty-append : (a : Text) (c : ℕ) (b : Text) → is_empty (a ++ c ∷ b) ≡ false
is_empty-append [] c b = refl
is_empty-append (x ∷ a) c b = refl

get_last?-append {ℓ} : {A : Type ℓ} (xs : List A) (x : A) → get_last? (xs ++ x ∷ []) ≡ some x
get_last?-append [] x = refl
get_last?-append (y ∷ []) x = refl
get_last?-append (y ∷ z ∷ xs) x = get_last?-append (z ∷ xs) x

is_empty-title_of :
    (ev : Event) (primary : Option ExceptionValue) → is_empty (title_of ev primary) ≡ false
is_empty-title_of ev none = ground arith
is_empty-title_of ev (some primary) =
    ground (arith, is_empty-append primary.type b':' (32 ∷ primary.value))

-- A title is never the empty text.
pub title_nonempty : (ev : Event) → is_empty (title ev) ≡ false
unfolding title
title_nonempty ev = is_empty-title_of ev (get_last? ev.exception)

-- An event with an exception is grouped by its last exception alone: neither the message nor the
-- threads nor the exceptions before it count.
pub components_last :
    (ev : Event) (primary : ExceptionValue) (es : List ExceptionValue) (m : Message)
    (ths : List Thread)
    → components (record ev { exception = es ++ primary ∷ []; message = m; threads = ths })
      ≡ components (record ev { exception = primary ∷ [] })
unfolding components
components_last ev primary es m ths =
    ap (components_of (record ev { message = m; threads = ths })) (get_last?-append es primary)

-- Yet the title of such an event can be its message: where the last exception has neither type
-- nor value, events with different messages are one issue under different titles.
pub title_of_bare_exception :
    (ev : Event) (primary : ExceptionValue) (es : List ExceptionValue)
    → primary.type ≡ []
    → primary.value ≡ []
    → title (record ev { exception = es ++ primary ∷ [] }) ≡ message_title ev
unfolding title
title_of_bare_exception ev primary es no_type no_value =
    ap (title_of ev) (get_last?-append es primary) ∙ ground arith
