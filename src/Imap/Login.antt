-- ===== src/Imap/Login.antt =====
-- IMAPBackend.Login and the methods of IMAPUser that do not make a mailbox object. The store is
-- the in-memory one, whose calls here cannot fail but for a user that is not there.
use go_pec.Base.{
  if◌then◌else◌, Text, utf8, ◌>>=◌, message, wrap, mailbox_not_allowed, Outcome, ok, err, panic,
}
use go_pec.Storage.{user_exists, create_user_with_password, get_user_password_hash, InMemoryStore}
use go_pec.Imap.Library.{Bcrypt}

-- IMAPUser; the store that it points to is passed along.
pub record ImapUser : Type 0 where
  pub username : Text

-- The rest of `Login` for a name that the store does not know, with the hash in hand.
unfoldable pub sign_up : Text → Outcome Text → InMemoryStore → InMemoryStore × Outcome ImapUser
sign_up username (ok hash) s =
    (create_user_with_password username hash s, ok (record { username = username }))
sign_up username (err e) s = (s, err (wrap (utf8 "failed to hash password") e))
sign_up username panic s = (s, panic)

-- The rest for a name that it knows, with the answer of the comparison.
unfoldable pub let_in : Text → Outcome (Unit {0}) → Outcome ImapUser
let_in username (ok _) = ok (record { username = username })
let_in username (err _) = err (message (utf8 "invalid username or password"))
let_in username panic = panic

module _ (bcrypt : Bcrypt) where
  open bcrypt use {generate_from_password, compare_hash_and_password}

  unfoldable pub login : Text → Text → Text → InMemoryStore → InMemoryStore × Outcome ImapUser
  unfolding sign_up let_in
  login salt username password s =
      if user_exists username s
      then (
        s,
        do
          hash ← get_user_password_hash username s
          let_in username (compare_hash_and_password hash password),
      )
      else sign_up username (generate_from_password salt password) s

unfoldable pub create_mailbox : ImapUser → Text → Outcome (Unit {0})
create_mailbox u name = err mailbox_not_allowed

unfoldable pub delete_mailbox : ImapUser → Text → Outcome (Unit {0})
delete_mailbox u name = err mailbox_not_allowed

unfoldable pub rename_mailbox : ImapUser → Text → Text → Outcome (Unit {0})
rename_mailbox u existing_name new_name = err mailbox_not_allowed

unfoldable pub log_out : ImapUser → Outcome (Unit {0})
log_out u = ok tt
