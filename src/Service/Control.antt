-- ===== src/Service/Control.antt =====
-- What the service reports and does, whatever the service manager asks.
use trackdown.Prelude.{
  ℕ, suc, ◌≡◌, refl, ap, Option, some, List, [], ◌∷◌, ◌++◌, All, replicate, ◌∙◌,
}
use trackdown.Service.{
  interrogate, stop, shutdown, other, start_pending, stop_pending, stopped, Message, served,
  change_request, Act, report, cancel, shutdown_server, bare, accepting, exit_code, run_loop,
  execute,
}

-- messages that end nothing
abbrev pub IsQuiet : Message → Type 0
IsQuiet (served e) = ⊥
IsQuiet (change_request interrogate) = Unit
IsQuiet (change_request stop) = ⊥
IsQuiet (change_request shutdown) = ⊥
IsQuiet (change_request (other n)) = Unit

abbrev pub interrogations : List Message → ℕ
interrogations [] = 0
interrogations (change_request interrogate ∷ ms) = suc (interrogations ms)
interrogations (change_request stop ∷ ms) = interrogations ms
interrogations (change_request shutdown ∷ ms) = interrogations ms
interrogations (change_request (other n) ∷ ms) = interrogations ms
interrogations (served e ∷ ms) = interrogations ms

-- how a message that is not quiet ends the service
abbrev pub final : Message → List Act × Option ℕ
final (served e) = (report (bare stopped) ∷ [], some (exit_code e))
final (change_request cmd) =
    (report (bare stop_pending) ∷ cancel ∷ shutdown_server ∷ report (bare stopped) ∷ [], some 0)

abbrev pub answered : ℕ → List Act
answered n = replicate n (report accepting)

abbrev after_acts : List Act → List Act × Option ℕ → List Act × Option ℕ
after_acts acts (later, code) = (acts ++ later, code)

run_loop_quiet :
    (quiet rest : List Message)
    → All IsQuiet quiet
    → run_loop (quiet ++ rest) accepting
      ≡ after_acts (answered (interrogations quiet)) (run_loop rest accepting)
unfolding run_loop
run_loop_quiet [] rest h = refl
run_loop_quiet (served e ∷ ms) rest h = absurd h.0
run_loop_quiet (change_request interrogate ∷ ms) rest h =
    ap (after_acts (report accepting ∷ [])) (run_loop_quiet ms rest h.1)
run_loop_quiet (change_request stop ∷ ms) rest h = absurd h.0
run_loop_quiet (change_request shutdown ∷ ms) rest h = absurd h.0
run_loop_quiet (change_request (other n) ∷ ms) rest h = run_loop_quiet ms rest h.1

run_loop-final :
    (m : Message) (rest : List Message) → ¬ IsQuiet m → run_loop (m ∷ rest) accepting ≡ final m
unfolding run_loop
run_loop-final (served e) rest loud = refl
run_loop-final (change_request interrogate) rest loud = absurd (loud tt)
run_loop-final (change_request stop) rest loud = refl
run_loop-final (change_request shutdown) rest loud = refl
run_loop-final (change_request (other n)) rest loud = absurd (loud tt)

-- The service reports that it starts and that it runs, then answers each interrogation by its status
-- and passes over every other request, up to the first stop, shutdown or end of the server. At a stop
-- or shutdown it reports that it stops, cancels the context, shuts the server down, reports that it
-- has stopped and exits with 0; at the end of the server it reports that it has stopped and exits
-- with 1 if the server failed, else with 0. What comes later changes nothing.
pub execute-final :
    (quiet : List Message) (m : Message) (rest : List Message)
    → All IsQuiet quiet
    → ¬ IsQuiet m
    → execute (quiet ++ m ∷ rest) ≡ (
      report (bare start_pending)
          ∷ report accepting
          ∷ (answered (interrogations quiet) ++ (final m).0),
      (final m).1,
    )
unfolding execute
execute-final quiet m rest h loud =
    ap (after_acts (report (bare start_pending) ∷ report accepting ∷ [])) (
      run_loop_quiet quiet (m ∷ rest) h
      ∙ ap (after_acts (answered (interrogations quiet))) (run_loop-final m rest loud))
