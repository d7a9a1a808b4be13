-- ===== src/Grouping/Frames.antt =====
-- What of a stack trace the fingerprint depends on.
use trackdown.Prelude.{
  ◌≡◌, refl, sym, ap, ◌∙◌, Text, str_eq_refl, Bool, true, false, not, List, [], ◌∷◌, ◌++◌, map,
  arith, is_empty, filter, filter-append, filter-cons_true, filter-cons_false, if◌then◌else◌, pos,
  Bool-cases, inl, inr,
}
use trackdown.Protocol.Types.{Frame}
use trackdown.Grouping.{collapse, filter_in_app, frame_components}

-- Where a frame is, without its file, line and column.
pub record Site : Type 0 where
  pub module_name : Text
  pub function : Text
  pub in_app : Bool

abbrev pub site : Frame → Site
site f = record { module_name = f.module_name; function = f.function; in_app = f.in_app }

-- a frame with nothing but its site
abbrev plain : Frame → Frame
plain f = record {
  filename = [];
  abs_path = [];
  function = f.function;
  module_name = f.module_name;
  lineno = pos 0;
  colno = pos 0;
  context_line = [];
  in_app = f.in_app;
}

abbrev of_site : Site → Frame
of_site s = record {
  filename = [];
  abs_path = [];
  function = s.function;
  module_name = s.module_name;
  lineno = pos 0;
  colno = pos 0;
  context_line = [];
  in_app = s.in_app;
}

map-of_site : (fs : List Frame) → map of_site (map site fs) ≡ map plain fs
map-of_site [] = refl
map-of_site (f ∷ fs) = ap (λ gs. plain f ∷ gs) (map-of_site fs)

filter_in_app-plain :
    (fs : List Frame) → filter_in_app (map plain fs) ≡ map plain (filter_in_app fs)
unfolding filter_in_app filter
filter_in_app-plain [] = refl
filter_in_app-plain (f ∷ fs) = ground (arith, filter_in_app-plain fs)

collapse-plain :
    (first : Bool) (m g : Text) (fs : List Frame)
    → collapse first m g (map plain fs) ≡ collapse first m g fs
unfolding collapse
collapse-plain first m g [] = refl
collapse-plain first m g (f ∷ fs) =
    rw (collapse-plain first m g fs, collapse-plain false f.module_name f.function fs)

is_empty-plain : (fs : List Frame) → is_empty (map plain fs) ≡ is_empty fs
is_empty-plain [] = refl
is_empty-plain (f ∷ fs) = refl

frame_components-plain : (fs : List Frame) → frame_components (map plain fs) ≡ frame_components fs
unfolding frame_components
frame_components-plain fs = rw (filter_in_app-plain fs) (
    rw (is_empty-plain (filter_in_app fs)) (elim (Bool-cases (is_empty (filter_in_app fs))) [
      | inl e ↦ rw e (collapse-plain true [] [] fs)
      | inr e ↦ rw e (collapse-plain true [] [] (filter_in_app fs))
    ]))

-- Two stack traces whose frames agree in module, function and in-app flag have the same
-- components: files, lines, columns and source lines do not count.
pub frame_components-sites :
    (fs gs : List Frame) → map site fs ≡ map site gs → frame_components fs ≡ frame_components gs
frame_components-sites fs gs same =
    sym (frame_components-plain fs)
    ∙ ap frame_components (sym (map-of_site fs) ∙ ap (map of_site) same ∙ map-of_site gs)
    ∙ frame_components-plain gs

collapse-recursion :
    (first : Bool) (m g : Text) (f : Frame) (xs ys : List Frame)
    → collapse first m g (xs ++ f ∷ f ∷ ys) ≡ collapse first m g (xs ++ f ∷ ys)
unfolding collapse
collapse-recursion first m g f [] ys =
    ground (arith, str_eq_refl f.module_name, str_eq_refl f.function)
collapse-recursion first m g f (x ∷ xs) ys = ground (
  arith,
  collapse-recursion first m g f xs ys,
  collapse-recursion false x.module_name x.function f xs ys,
)

target : List Frame → List Frame → List Frame
target in_app frames = if not (is_empty in_app) then in_app else frames

target_some :
    (xs ys : List Frame) (f : Frame) (frames : List Frame)
    → target (xs ++ f ∷ ys) frames ≡ xs ++ f ∷ ys
unfolding target
target_some [] ys f frames = refl
target_some (x ∷ xs) ys f frames = refl

collapse-target :
    (in_app frames frames' : List Frame)
    → collapse true [] [] frames ≡ collapse true [] [] frames'
    → collapse true [] [] (target in_app frames) ≡ collapse true [] [] (target in_app frames')
unfolding target
collapse-target [] frames frames' h = h
collapse-target (x ∷ xs) frames frames' h = refl

-- the same, in the target that `frame_components` chooses from the in-app frames
recursion_in_app :
    (a b frames frames' : List Frame) (f : Frame)
    → collapse true [] [] (target (a ++ f ∷ f ∷ b) frames)
      ≡ collapse true [] [] (target (a ++ f ∷ b) frames')
recursion_in_app a b frames frames' f =
    ap (collapse true [] []) (target_some a (f ∷ b) f frames)
    ∙ collapse-recursion true [] [] f a b
    ∙ ap (collapse true [] []) (sym (target_some a b f frames'))

frame_components-target :
    (fs : List Frame)
    → frame_components fs ≡ collapse true [] [] (target (filter (λ f. f.in_app) fs) fs)
unfolding frame_components filter_in_app target
frame_components-target fs = refl

-- Two frames of one site in a row count as one, wherever they stand in the trace: the depth of a
-- recursion does not change the components.
pub frame_components-recursion :
    (xs ys : List Frame) (f : Frame)
    → frame_components (xs ++ f ∷ f ∷ ys) ≡ frame_components (xs ++ f ∷ ys)
frame_components-recursion xs ys f =
    frame_components-target (xs ++ f ∷ f ∷ ys)
    ∙ rw (filter-append, filter-append)
        (elim (Bool-cases f.in_app) [
          | inl e ↦
              rw (filter-cons_true p f (f ∷ ys) e, filter-cons_true p f ys e)
                (recursion_in_app (filter p xs) (filter p ys) (xs ++ f ∷ f ∷ ys) (xs ++ f ∷ ys) f)
          | inr e ↦
              rw (filter-cons_false p f (f ∷ ys) e, filter-cons_false p f ys e)
                (collapse-target (filter p xs ++ filter p ys) (xs ++ f ∷ f ∷ ys) (xs ++ f ∷ ys)
                  (collapse-recursion true [] [] f xs ys))
        ])
    ∙ sym (frame_components-target (xs ++ f ∷ ys))
  where
    p : Frame → Bool
    p g = g.in_app
