-- ===== src/Alert/Smtp/Delivery.antt =====
-- A delivery over implicit TLS that reports success.
use trackdown.Prelude.{
  ◌≡◌, refl, sym, ◌∙◌, ap, Text, codes, Option, none, some, List, [], ◌∷◌, ◌++◌, map, append-nil,
  append_assoc,
}
use trackdown.Alert.Smtp.{
  SmtpNotifier, PlainAuth, Call, dial, new_client, authenticate, mail_from, rcpt_to, open_message,
  write_message, write_message_end, quit, close_client, close_connection, Trace, settle, call,
  deferred, call_each, call_auth, transmit, send_implicit_tls,
}

abbrev pub auth_calls : Option PlainAuth → List Call
auth_calls none = []
auth_calls (some auth) = authenticate auth ∷ []

-- The calls that deliver a message over an open connection.
unfoldable pub script : SmtpNotifier → Option PlainAuth → Text → List Call
script n auth msg =
    auth_calls auth
    ++ mail_from n.from
      ∷ (map rcpt_to n.recipients
          ++ open_message ∷ write_message msg ∷ write_message_end ∷ quit ∷ [])

module _ (replies : Trace → Call → Option Text) (quote : Text → Text) where
  -- the calls return no error, in this order after the trace
  abbrev pub Accepted : Trace → List Call → Type 0
  Accepted trace [] = Unit
  Accepted trace (c ∷ cs) = (replies trace c ≡ none) × Accepted (trace ++ c ∷ []) cs

  -- a success has made just the calls `cs`, which were accepted, and then the calls `closing`
  abbrev Succeeds : List Call → List Call → Trace → Option Text × Trace → Type 0
  Succeeds cs closing trace r = r.0 ≡ none → (r.1 ≡ trace ++ (cs ++ closing)) × Accepted trace cs

  call-Succeeds :
      (what : Text) (c : Call) (cs closing : List Call) (later : Trace → Option Text × Trace)
      → ((trace : Trace) → Succeeds cs closing trace (later trace))
      → (trace : Trace) → Succeeds (c ∷ cs) closing trace (call replies quote what c later trace)
  unfolding call
  call-Succeeds what c cs closing later h trace = go (replies trace c) refl
    where
      go :
          (o : Option Text)
          → replies trace c ≡ o
          → Succeeds (c ∷ cs) closing trace (settle replies quote what o later (trace ++ c ∷ []))
      go none e k =
          let (same, accepted) = h (trace ++ c ∷ []) k in
          (same ∙ append_assoc trace (c ∷ []) (cs ++ closing), (e, accepted))
      go (some msg) e k = cc

  call_each-Succeeds :
      (recipients : List Text) (cs closing : List Call) (later : Trace → Option Text × Trace)
      → ((trace : Trace) → Succeeds cs closing trace (later trace))
      → (trace : Trace)
      → Succeeds
          (map rcpt_to recipients ++ cs)
          closing
          trace
          (call_each replies quote recipients later trace)
  call_each-Succeeds [] cs closing later h = h
  call_each-Succeeds (r ∷ rs) cs closing later h =
      call-Succeeds (codes "RCPT TO " ++ quote r ++ codes ": ") (rcpt_to r) (map rcpt_to rs ++ cs)
        closing (call_each replies quote rs later) (call_each-Succeeds rs cs closing later h)

  call_auth-Succeeds :
      (auth : Option PlainAuth) (cs closing : List Call) (later : Trace → Option Text × Trace)
      → ((trace : Trace) → Succeeds cs closing trace (later trace))
      → (trace : Trace)
      → Succeeds (auth_calls auth ++ cs) closing trace (call_auth replies quote auth later trace)
  call_auth-Succeeds none cs closing later h = h
  call_auth-Succeeds (some auth) cs closing later h =
      call-Succeeds (codes "SMTP auth: ") (authenticate auth) cs closing later h

  transmit-Succeeds :
      (n : SmtpNotifier) (auth : Option PlainAuth) (msg : Text) (trace : Trace)
      → Succeeds (script n auth msg) [] trace (transmit replies quote n auth msg trace)
  unfolding transmit script
  transmit-Succeeds n auth msg = call_auth-Succeeds auth _ [] _ (
      call-Succeeds (codes "MAIL FROM: ") (mail_from n.from) _ [] _ (
        call_each-Succeeds n.recipients _ [] _ (
          call-Succeeds (codes "DATA: ") open_message
            (write_message msg ∷ write_message_end ∷ quit ∷ []) [] _
            (call-Succeeds (codes "writing message: ") (write_message msg)
              (write_message_end ∷ quit ∷ []) [] _
              (call-Succeeds (codes "closing message: ") write_message_end (quit ∷ []) [] _ (
                call-Succeeds [] quit [] [] (λ trace. (none, trace))
                  (λ trace h. (sym (append-nil trace), tt))))))))

  deferred-Succeeds :
      (c : Call) (cs closing : List Call) (trace : Trace) (r : Option Text × Trace)
      → Succeeds cs closing trace r
      → Succeeds cs (closing ++ c ∷ []) trace (deferred replies quote c r)
  deferred-Succeeds c cs closing trace r h done =
      (ap (λ t. t ++ c ∷ []) (h done).0 ∙ simp append_assoc, (h done).1)

  -- If `sendImplicitTLS` reports no error, then it has made exactly these calls, in this order: it
  -- dialed, set up a client, authenticated if it has credentials, named the sender and each of the
  -- recipients, wrote the message and its end, quit, and closed the client and the connection. The
  -- server accepted every call up to the quit, so no recipient was passed over.
  pub send_implicit_tls-script :
      (n : SmtpNotifier) (addr : Text) (auth : Option PlainAuth) (msg : Text) (trace : Trace)
      → (send_implicit_tls replies quote n addr auth msg trace).0 ≡ none
      → ((send_implicit_tls replies quote n addr auth msg trace).1
          ≡ trace
            ++ dial addr n.host
              ∷ new_client n.host
              ∷ (script n auth msg ++ close_client ∷ close_connection ∷ []))
        × Accepted trace (dial addr n.host ∷ new_client n.host ∷ script n auth msg)
  unfolding send_implicit_tls
  send_implicit_tls-script n addr auth msg trace =
      call-Succeeds (codes "dialing SMTP over implicit TLS: ") (dial addr n.host)
        (new_client n.host ∷ script n auth msg) (close_client ∷ close_connection ∷ []) _
        (λ trace'.
          deferred-Succeeds close_connection (new_client n.host ∷ script n auth msg)
            (close_client ∷ []) trace' _
            (call-Succeeds (codes "creating SMTP client: ") (new_client n.host) (script n auth msg)
              (close_client ∷ []) _
              (λ trace''.
                deferred-Succeeds close_client (script n auth msg) [] trace'' _
                  (transmit-Succeeds n auth msg trace''))
              trace'))
        trace
