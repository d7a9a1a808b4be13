-- ===== src/Service/Manage/Handles.antt =====
-- The handles of the service manager that `trackdown service …` opens.
use trackdown.Prelude.{
  ◌≡◌, refl, Text, codes, Bool, true, false, some, List, [], ◌∷◌, str_eq, if◌then◌else◌,
}
use trackdown.Calls.{Program, Replies, Trace, ◌>>◌, pure, fail, clean_up, step, deferred}
use trackdown.Calls.Held.{
  Effect, opens, closes, neither, held, Holds, Ends-held, >>-Holds, step-Holds, probe-Holds,
  clean_up-Holds, deferred-Holds,
}
use trackdown.Service.Manage.{
  ScmCall, find_executable, connect, disconnect, open_service, close_service, delete, start,
  control_stop, create_service, connected, on_service, already_installed, create, service_install,
  service_uninstall, service_start, service_stop, service_command,
}

pub data Handle : Type 0 where
  manager service : Handle

abbrev pub same_handle : Handle → Handle → Bool
same_handle manager manager = true
same_handle service service = true
same_handle _ _ = false

abbrev pub effect : ScmCall → Effect Handle
effect find_executable = neither
effect connect = opens manager
effect disconnect = closes manager
effect open_service = opens service
effect close_service = closes service
effect delete = neither
effect start = neither
effect control_stop = neither
effect (create_service path args) = opens service

abbrev Keeps : List Handle → List Handle → List Handle → Program ScmCall (Unit {0}) → Type 0
Keeps = Holds same_handle effect

abbrev within : List Handle
within = service ∷ manager ∷ []

module _ (replies : Replies ScmCall) where
  disconnect-Keeps : Keeps (manager ∷ []) [] [] (clean_up replies (disconnect ∷ []))
  disconnect-Keeps =
      clean_up-Holds same_handle effect replies (manager ∷ []) [] [] (disconnect ∷ [])
        ((manager, refl), tt) refl

  close-Keeps : Keeps within (manager ∷ []) (manager ∷ []) (clean_up replies (close_service ∷ []))
  close-Keeps =
      clean_up-Holds same_handle effect replies within (manager ∷ []) (manager ∷ [])
        (close_service ∷ []) ((service, refl), tt) refl

  connected-Keeps :
      (p : Program ScmCall (Unit {0}))
      → Keeps (manager ∷ []) (manager ∷ []) (manager ∷ []) p
      → Keeps [] [] [] (connected replies p)
  unfolding connected
  connected-Keeps p h =
      >>-Holds same_handle effect [] (manager ∷ []) [] [] _ _
        (step-Holds same_handle effect replies [] (manager ∷ []) [] [] _ connect tt refl
          (λ e. refl))
        (deferred-Holds same_handle effect (manager ∷ []) (manager ∷ []) (manager ∷ []) [] [] _ p
          disconnect-Keeps disconnect-Keeps h)

  closed-Keeps :
      (p q : Program ScmCall (Unit {0}))
      → Keeps (manager ∷ []) within (manager ∷ []) p
      → Keeps within within within q
      → Keeps
          (manager ∷ [])
          (manager ∷ [])
          (manager ∷ [])
          (p >> deferred (clean_up replies (close_service ∷ [])) q)
  closed-Keeps p q h k =
      >>-Holds same_handle effect (manager ∷ []) within (manager ∷ []) (manager ∷ []) p _ h (
        deferred-Holds same_handle effect within within within (manager ∷ []) (manager ∷ []) _ q
          close-Keeps close-Keeps k)

  opening-Keeps :
      (cleanup : List ScmCall) (what : Text) (c : ScmCall)
      → effect c ≡ opens service
      → Keeps (manager ∷ []) within (manager ∷ []) (step replies [] what c)
  opening-Keeps cleanup what c e =
      step-Holds same_handle effect replies (manager ∷ []) within (manager ∷ []) [] what c tt
        (rw e refl) (λ msg. rw e refl)

  acting-Keeps :
      (what : Text) (c : ScmCall)
      → effect c ≡ neither
      → Keeps within within within (step replies [] what c)
  acting-Keeps what c e =
      step-Holds same_handle effect replies within within within [] what c tt (rw e refl)
        (λ msg. rw e refl)

  on_service-Keeps :
      (hint what : Text) (action : ScmCall)
      → effect action ≡ neither
      → Keeps [] [] [] (connected replies (on_service replies hint what action))
  unfolding on_service
  on_service-Keeps hint what action e =
      connected-Keeps _
        (closed-Keeps _ _ (opening-Keeps [] _ open_service refl) (acting-Keeps what action e))

  already_installed-Keeps : Keeps within (manager ∷ []) (manager ∷ []) (already_installed replies)
  unfolding already_installed
  already_installed-Keeps =
      >>-Holds same_handle effect within (manager ∷ []) (manager ∷ []) (manager ∷ []) _ _
        close-Keeps (λ t h. unfold fail in h)

  create-Keeps :
      (exe_path : Text) (args : List Text)
      → Keeps (manager ∷ []) (manager ∷ []) (manager ∷ []) (create replies exe_path args)
  unfolding create pure
  create-Keeps exe_path args =
      closed-Keeps _ _ (opening-Keeps [] _ (create_service exe_path (codes "serve" ∷ args)) refl)
        (λ t h. h)

  service_install-Keeps :
      (exe_path : Text) (args : List Text) → Keeps [] [] [] (service_install replies exe_path args)
  unfolding service_install
  service_install-Keeps exe_path args =
      >>-Holds same_handle effect [] [] [] [] _ _
        (step-Holds same_handle effect replies [] [] [] [] _ find_executable tt refl (λ e. refl))
        (connected-Keeps _ (
          probe-Holds same_handle effect replies (manager ∷ []) within (manager ∷ []) (manager ∷ [])
            (manager ∷ []) open_service _ _ refl (λ e. refl) already_installed-Keeps
            (λ e. create-Keeps exe_path args)))

  if-Keeps :
      (b : Bool) (p q : Program ScmCall (Unit {0}))
      → Keeps [] [] [] p
      → Keeps [] [] [] q
      → Keeps [] [] [] (if b then p else q)
  if-Keeps true p q h k = h
  if-Keeps false p q h k = k

  service_command-Keeps :
      (quote : Text → Text) (exe_path : Text) (args : List Text)
      → Keeps [] [] [] (service_command replies quote exe_path args)
  unfolding service_command service_uninstall service_start service_stop fail
  service_command-Keeps quote exe_path [] = λ t h. h
  service_command-Keeps quote exe_path (name ∷ args) =
      if-Keeps (str_eq name (codes "install")) _ _ (service_install-Keeps exe_path args) (
        if-Keeps (str_eq name (codes "uninstall")) _ _ (on_service-Keeps _ _ delete refl) (
          if-Keeps (str_eq name (codes "start")) _ _ (on_service-Keeps _ _ start refl) (
            if-Keeps (str_eq name (codes "stop")) _ _ (on_service-Keeps _ _ control_stop refl)
              (λ t h. h))))

  -- Whatever the service manager answers, `trackdown service …` closes each handle that it opened, of
  -- the manager and of the service, exactly once, and closes none that is not open.
  pub service_command-held :
      (quote : Text → Text) (exe_path : Text) (args : List Text) (t : Trace ScmCall)
      → held same_handle effect t ≡ some []
      → held same_handle effect (service_command replies quote exe_path args t).1 ≡ some []
  service_command-held quote exe_path args t h =
      Ends-held same_handle effect [] (service_command replies quote exe_path args t)
        (service_command-Keeps quote exe_path args t h)
