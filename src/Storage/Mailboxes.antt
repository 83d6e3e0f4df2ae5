-- ===== src/Storage/Mailboxes.antt =====
-- What each method of the store does to each mailbox.
use go_pec.Base.{
  if◌then◌else◌, Bool-cases, length, length-append, Text, text_eq, lookup-insert, ℕ, ◌+◌, ◌≡◌, refl,
  inl, inr, [], ◌∷◌, ◌++◌, arith,
}
use go_pec.Base.TextLaws.{text_eq_iff}
use go_pec.Storage.Defs.{
  mailbox, local_part, open_mailbox, stamped, append_message, add_message, get_messages, remove_uid,
  delete_message, create_user_with_password, Message, InMemoryStore,
}

pub get_messages-eq-mailbox : (u : Text) (s : InMemoryStore) → get_messages u s ≡ mailbox u s
unfolding get_messages
get_messages-eq-mailbox u s = ground arith

pub mailbox-open_mailbox :
    (u to : Text) (s : InMemoryStore) → mailbox u (open_mailbox to s) ≡ mailbox u s
unfolding open_mailbox
mailbox-open_mailbox u to s = ground (arith, text_eq_iff to u, lookup-insert to u [] s.messages)

-- The mailbox of the local part gets the message at its end; every other one stays.
pub mailbox-add_message :
    (u to : Text) (msg : Message) (s : InMemoryStore)
    → mailbox u (add_message to msg s).0 ≡ (
        if text_eq (local_part to) u
        then mailbox u s ++ stamped (local_part to) msg (open_mailbox (local_part to) s) ∷ []
        else mailbox u s)
unfolding add_message append_message
mailbox-add_message u to msg s = ground (
  arith,
  text_eq_iff (local_part to) u,
  lookup-insert (local_part to) u [] s.messages,
  lookup-insert (local_part to) u
      (mailbox (local_part to) (open_mailbox (local_part to) s)
        ++ stamped (local_part to) msg (open_mailbox (local_part to) s) ∷ [])
      (open_mailbox (local_part to) s).messages,
  mailbox-open_mailbox u (local_part to) s,
  mailbox-open_mailbox (local_part to) (local_part to) s,
)

pub mailbox-delete_message :
    (u v : Text) (uid : ℕ) (s : InMemoryStore)
    → mailbox u (delete_message v uid s)
      ≡ (if text_eq v u then remove_uid uid (mailbox u s) else mailbox u s)
unfolding delete_message remove_uid
mailbox-delete_message u v uid s =
    ground (arith, text_eq_iff v u, lookup-insert v u (remove_uid uid (mailbox v s)) s.messages)

pub mailbox-create_user :
    (u v hash : Text) (s : InMemoryStore)
    → mailbox u (create_user_with_password v hash s) ≡ (if text_eq v u then [] else mailbox u s)
unfolding create_user_with_password
mailbox-create_user u v hash s = ground (arith, text_eq_iff v u, lookup-insert v u [] s.messages)

pub length-add_message :
    (u to : Text) (msg : Message) (s : InMemoryStore)
    → length (mailbox u (add_message to msg s).0)
      ≡ length (mailbox u s) + (if text_eq (local_part to) u then 1 else 0)
length-add_message u to msg s = elim (Bool-cases (text_eq (local_part to) u)) [
  | inl same ↦
      rw
        (
          mailbox-add_message u to msg s,
          same,
          length-append (mailbox u s)
              (stamped (local_part to) msg (open_mailbox (local_part to) s) ∷ []),
        )
        refl
  | inr other ↦ rw (mailbox-add_message u to msg s, other) (omega arith)
]
