-- ===== src/Service/Manage/Installs.antt =====
-- What `trackdown service install` has done that succeeds.
use trackdown.Prelude.{◌≡◌, Text, codes, Option, none, some, List, ◌∷◌}
use trackdown.Calls.{Outcome, ok, Replies, Trace}
use trackdown.Service.Manage.{
  ScmCall, find_executable, connect, disconnect, open_service, close_service, create_service,
}

module _ (replies : Replies ScmCall) (exe_path : Text) (args : List Text) where
  -- the calls of an installation, with what the look-up and the two closing calls returned
  abbrev pub installation : Text → Option Text → Option Text → Trace ScmCall → Trace ScmCall
  installation absent a b t =
      (disconnect, b)
      ∷ (close_service, a)
      ∷ (create_service exe_path (codes "serve" ∷ args), none)
      ∷ (open_service, some absent)
      ∷ (connect, none)
      ∷ (find_executable, none)
      ∷ t

  -- a success of `p` after `t` has made the calls that `r` adds, for some errors passed over
  abbrev Made :
      {E : Type 0}
      → (E → Trace ScmCall → Trace ScmCall)
      → Trace ScmCall
      → Outcome (Unit {0}) × Trace ScmCall
      → Type 0
  Made {E} r t p = p.0 ≡ ok tt → (e : E) × (p.1 ≡ r e t)

  abbrev created : Option Text → Trace ScmCall → Trace ScmCall
  created a t = (close_service, a) ∷ (create_service exe_path (codes "serve" ∷ args), none) ∷ t
