-- ===== src/Delivery/Session/Mailboxes.antt =====
-- What a session of pec-server/punto-consegna/punto-consegna.go puts into the mailboxes.
use go_pec.Base.{
  if◌then◌else◌, Bool-cases, length, Text, text_eq, ok, panic, ℕ, ◌+◌, ◌≡◌, refl, ◌∙◌, inl, inr,
  true, false, List, [], ◌∷◌, arith,
}
use go_pec.Commons.{convert_to_imap_message, is_transport_envelope}
use go_pec.Mail.{Entity, MailLibrary}
use go_pec.Storage.Mailboxes.{length-add_message}
use go_pec.Storage.{mailbox, local_part, add_message, Message}
use go_pec.Delivery.Bodies.{PartWriter}
use go_pec.Delivery.Receipts.{Surroundings}
use go_pec.Delivery.Session.{
  send_entity, deliver_message, after_delivery, drained, process_message, process_each,
  receive_data, PuntoConsegnaSession,
}

-- How many of the recipients have this mailbox.
abbrev pub copies : Text → List Text → ℕ
copies u [] = 0
copies u (r ∷ rs) = (if text_eq (local_part r) u then 1 else 0) + copies u rs

module _ (lib : MailLibrary) (writer : PartWriter lib.Header) where
  open lib use {Header, read}

  -- A message is stored whatever it is; an envelope then makes the session panic.
  pub process_message_lem :
      (env : Surroundings) (msg : Entity Header) (r : Text) (s : PuntoConsegnaSession)
      → process_message lib writer env msg r s ≡ (
        record s {
          store =
              (add_message r
                (convert_to_imap_message lib (env.now 3) (env.now 4) (env.now 5) msg)
                s.store).0;
        },
        if is_transport_envelope lib msg then panic else ok tt,
      )
  unfolding process_message deliver_message after_delivery send_entity
  process_message_lem env msg r s = elim (Bool-cases (is_transport_envelope lib msg)) [
    | inl envelope ↦ rw envelope refl
    | inr other ↦ rw other refl
  ]

  abbrev converted : (ℕ → Surroundings) → Entity Header → Message
  converted envs msg =
      convert_to_imap_message lib ((envs 0).now 3) ((envs 0).now 4) ((envs 0).now 5) msg

  abbrev stored_by :
      (ℕ → Surroundings) → Entity Header → Text → PuntoConsegnaSession → PuntoConsegnaSession
  stored_by envs msg r s = record s { store = (add_message r (converted envs msg) s.store).0 }

  process_each_lem :
      (envs : ℕ → Surroundings) (msg : Entity Header) (rs : List Text) (s : PuntoConsegnaSession)
      (u : Text)
      → is_transport_envelope lib msg ≡ false
      → ((process_each lib writer envs msg rs s).1 ≡ ok tt)
        × (length (mailbox u (process_each lib writer envs msg rs s).0.store)
            ≡ length (mailbox u s.store) + copies u rs)
  unfolding process_each is_transport_envelope
  process_each_lem envs msg [] s u other = (refl, omega arith)
  process_each_lem envs msg (r ∷ rs) s u other =
      let (done, count) =
        process_each_lem (λ i. envs (i + 1)) (drained lib writer msg) rs (stored_by envs msg r s) u
          other in
      rw
        (
          process_each,
          process_message_lem (envs 0) msg r s,
          other,
          process_message_lem (envs 0) msg r s,
        )
        (done, count ∙ rw (length-add_message u r (converted envs msg) s.store) (omega arith))

  -- Data that parses as a message that is no transport envelope is accepted, and each mailbox gets
  -- one message for each recipient that has it.
  pub receive_data-regular :
      (envs : ℕ → Surroundings) (raw : Text) (msg : Entity Header) (s : PuntoConsegnaSession)
      (u : Text)
      → read raw ≡ ok msg
      → is_transport_envelope lib msg ≡ false
      → ((receive_data lib writer envs raw s).1 ≡ ok tt)
        × (length (mailbox u (receive_data lib writer envs raw s).0.store)
            ≡ length (mailbox u s.store) + copies u s.to)
  unfolding receive_data
  receive_data-regular envs raw msg s u parsed other =
      rw (receive_data, parsed) (process_each_lem envs msg s.to s u other)

  process_each-envelope :
      (envs : ℕ → Surroundings) (msg : Entity Header) (to : List Text) (s : PuntoConsegnaSession)
      (r : Text) (rs : List Text) (u : Text)
      → is_transport_envelope lib msg ≡ true
      → to ≡ r ∷ rs
      → ((process_each lib writer envs msg to s).1 ≡ panic)
        × (length (mailbox u (process_each lib writer envs msg to s).0.store)
            ≡ length (mailbox u s.store) + copies u (r ∷ []))
  unfolding process_each
  process_each-envelope envs msg to s r rs u envelope e =
      rw
        (
          e,
          process_each,
          process_message_lem (envs 0) msg r s,
          envelope,
          process_message_lem (envs 0) msg r s,
        )
        (refl, rw (length-add_message u r (converted envs msg) s.store) (omega arith))

  -- Data that is a transport envelope makes a session that has a recipient panic, after the first
  -- recipient only got it.
  pub receive_data-envelope :
      (envs : ℕ → Surroundings) (raw : Text) (msg : Entity Header) (s : PuntoConsegnaSession)
      (r : Text) (rs : List Text) (u : Text)
      → read raw ≡ ok msg
      → is_transport_envelope lib msg ≡ true
      → s.to ≡ r ∷ rs
      → ((receive_data lib writer envs raw s).1 ≡ panic)
        × (length (mailbox u (receive_data lib writer envs raw s).0.store)
            ≡ length (mailbox u s.store) + copies u (r ∷ []))
  unfolding receive_data process_each
  receive_data-envelope envs raw msg s r rs u parsed envelope to =
      rw (receive_data, parsed) (process_each-envelope envs msg s.to s r rs u envelope to)
