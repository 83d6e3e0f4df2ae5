-- ===== src/Imap/Passwords.antt =====
-- IMAPBackend.Login of pec-server/internal/common/imap-server.go over the life of a store: whose
-- password a user has after logins, deliveries, deletions and opened mailboxes.
use go_pec.Base.{
  Bool-cases, Text, text_eq, lookup, lookup-insert, Outcome, ok, err, panic, ℕ, ◌≡◌, refl, ap, ◌∙◌,
  ◌↔◌, inl, inr, false, some, arith,
}
use go_pec.Base.TextLaws.{text_eq_iff, text_eq_refl}
use go_pec.Storage.{
  register_notifier, open_mailbox, append_message, add_message, delete_message, user_exists,
  create_user_with_password, get_user_password_hash, Message, InMemoryStore,
}
use go_pec.Imap.Library.{Bcrypt}
use go_pec.Imap.Login.{sign_up, let_in, login}

let_in_iff :
    (u : Text) (compared : Outcome (Unit {0}))
    → (let_in u compared ≡ ok (record { username = u })) ↔ (compared ≡ ok tt)
unfolding let_in
let_in_iff u (ok _) = (λ e. refl, λ e. refl)
let_in_iff u (err _) = (λ e. cc, λ e. cc)
let_in_iff u panic = (λ e. cc, λ e. cc)

module _ (bcrypt : Bcrypt) where
  open bcrypt use {generate_from_password, compare_hash_and_password, compare-generate}

  -- What the servers do with a store: anyone may try to log in.
  pub data Use (s : InMemoryStore) : InMemoryStore → Type 0 where
    delivered : (to : Text) (msg : Message) → Use s (add_message to msg s).0
    deleted : (u : Text) (uid : ℕ) → Use s (delete_message u uid s)
    opened : (u : Text) (notify : ℕ) → Use s (register_notifier u notify s)
    attempted : (salt u password : Text) → Use s (login bcrypt salt u password s).0

  pub data Uses (s : InMemoryStore) : InMemoryStore → Type 0 where
    none_yet : Uses s s
    one_more : {t v : InMemoryStore} → Uses s t → Use t v → Uses s v

  abbrev HasHash : Text → Text → InMemoryStore → Type 0
  HasHash u hash s = lookup u s.password_hash ≡ some hash

  add_message-HasHash :
      (u hash to : Text) (msg : Message) (s : InMemoryStore)
      → HasHash u hash s
      → HasHash u hash (add_message to msg s).0
  unfolding add_message append_message open_mailbox
  add_message-HasHash u hash to msg s h = ground arith

  delete_message-HasHash :
      (u hash v : Text) (uid : ℕ) (s : InMemoryStore)
      → HasHash u hash s
      → HasHash u hash (delete_message v uid s)
  unfolding delete_message
  delete_message-HasHash u hash v uid s h = ground arith

  sign_up-HasHash :
      (u hash v : Text) (made : Outcome Text) (s : InMemoryStore)
      → text_eq v u ≡ false
      → HasHash u hash s
      → HasHash u hash (sign_up v made s).0
  unfolding sign_up create_user_with_password
  sign_up-HasHash u hash v (ok new) s other h =
      ground (arith, lookup-insert v u new s.password_hash)
  sign_up-HasHash u hash v (err _) s other h = h
  sign_up-HasHash u hash v panic s other h = h

  login-HasHash :
      (u hash salt v password : Text) (s : InMemoryStore)
      → HasHash u hash s
      → HasHash u hash (login bcrypt salt v password s).0
  unfolding login user_exists
  login-HasHash u hash salt v password s h = elim (Bool-cases (text_eq v u)) [
    | inl same ↦ ground (arith, text_eq_iff v u)
    | inr other ↦
        ground (arith, sign_up-HasHash u hash v (generate_from_password salt password) s other h)
  ]

  Use-HasHash :
      {s t : InMemoryStore} (u hash : Text) → Use s t → HasHash u hash s → HasHash u hash t
  unfolding register_notifier
  Use-HasHash {s} u hash (delivered to msg) h = add_message-HasHash u hash to msg s h
  Use-HasHash {s} u hash (deleted v uid) h = delete_message-HasHash u hash v uid s h
  Use-HasHash u hash (opened v notify) h = h
  Use-HasHash {s} u hash (attempted salt v password) h = login-HasHash u hash salt v password s h

  Uses-HasHash :
      {s t : InMemoryStore} (u hash : Text) → Uses s t → HasHash u hash s → HasHash u hash t
  Uses-HasHash u hash none_yet h = h
  Uses-HasHash u hash (one_more r st) h = Use-HasHash u hash st (Uses-HasHash u hash r h)

  login-known :
      (u hash salt password : Text) (s : InMemoryStore)
      → HasHash u hash s
      → login bcrypt salt u password s ≡ (s, let_in u (compare_hash_and_password hash password))
  unfolding login user_exists get_user_password_hash
  login-known u hash salt password s h = ground (arith, h)

  login-unknown :
      (u hash salt password : Text) (s : InMemoryStore)
      → user_exists u s ≡ false
      → generate_from_password salt password ≡ ok hash
      → HasHash u hash (login bcrypt salt u password s).0
  unfolding login sign_up create_user_with_password
  login-unknown u hash salt password s new made =
      ground (arith, lookup-insert u u hash s.password_hash, text_eq_refl u)

  -- When a new name has logged in and its password could be hashed, then after any deliveries,
  -- deletions, opened mailboxes and attempts to log in, also under that name, the same password logs
  -- in again, any other password logs in exactly when bcrypt finds that it matches that first hash,
  -- and neither attempt changes the store.
  pub login-login :
      (u salt again password other hash : Text) (s t : InMemoryStore)
      → user_exists u s ≡ false
      → generate_from_password salt password ≡ ok hash
      → Uses (login bcrypt salt u password s).0 t
      → (login bcrypt again u password t ≡ (t, ok (record { username = u })))
        × ((login bcrypt again u other t).0 ≡ t)
        × (((login bcrypt again u other t).1 ≡ ok (record { username = u }))
            ↔ (compare_hash_and_password hash other ≡ ok tt))
  login-login u salt again password other hash s t new made uses =
      let kept = Uses-HasHash u hash uses (login-unknown u hash salt password s new made) in
      (
        login-known u hash again password t kept
            ∙ ap (λ r. (t, r))
                ((let_in_iff u (compare_hash_and_password hash password)).1
                  (compare-generate salt password hash made)),
        rw (login-known u hash again other t kept) refl,
        rw (login-known u hash again other t kept)
            (let_in_iff u (compare_hash_and_password hash other)),
      )
