-- ===== src/Storage/Recipients.antt =====
-- Which mailbox a recipient's mail goes to in pec-server/internal/storage/in-memory.go, and what
-- the creation of a user does to it.
use go_pec.Base.{
  Bool-cases, Option-cases, take, Text, text_eq, index, lookup, lookup-insert, ℕ, zero, suc, ◌≡◌,
  refl, ◌≢◌, inl, inr, none, some, [], ◌∷◌, map, arith,
}
use go_pec.Base.TextLaws.{text_eq_iff, text_eq_refl}
use go_pec.Storage.Defs.{
  uid_after, local_part, open_mailbox, stamped, add_message, get_messages,
  create_user_with_password, Message, InMemoryStore,
}
use go_pec.Storage.Mailboxes.{get_messages-eq-mailbox, mailbox-add_message, mailbox-create_user}

index-take : (s : Text) (c i : ℕ) → index s c ≡ some i → index (take i s) c ≡ none
unfolding index
index-take [] c i h = cc
index-take (a ∷ s) c zero h = refl
index-take (a ∷ s) c (suc i) h = ground (arith, index-take s c i)

index-local_part : (to : Text) (i : ℕ) → index (local_part to) b'@' ≢ some (suc i)
unfolding local_part
index-local_part to i = elim (Option-cases (index to b'@')) [
  | inl absent ↦ ground arith
  | inr (j, found) ↦ ground (arith, index-take to b'@' j found)
]

-- A name with an "@" after its first byte never gains mail, whoever the mail is for: the mailbox
-- `get_messages` reads for it is the one that it was before.
pub get_messages-full_address :
    (u to : Text) (i : ℕ) (msg : Message) (s : InMemoryStore)
    → index u b'@' ≡ some (suc i)
    → get_messages u (add_message to msg s).0 ≡ get_messages u s
get_messages-full_address u to i msg s h = elim (Bool-cases (text_eq (local_part to) u)) [
  | inl same ↦ absurd (index-local_part to i (rw ((text_eq_iff (local_part to) u).0 same) h))
  | inr other ↦ rw (
    get_messages-eq-mailbox u (add_message to msg s).0,
    mailbox-add_message u to msg s,
    other,
    get_messages-eq-mailbox u s,
  )
]

uid_after-create_user :
    (u hash : Text) (s : InMemoryStore)
    → lookup u s.next_uid ≡ none
    → uid_after u (open_mailbox u (create_user_with_password u hash s)) ≡ 0
unfolding create_user_with_password open_mailbox
uid_after-create_user u hash s fresh =
    ground (arith, lookup-insert u u [] s.messages, text_eq_refl u)

-- For a user with no UID counter, whose name is a mailbox name: once created and sent a message,
-- the user has that one message, and its UID is 0.
pub create_user-first_uid :
    (u hash : Text) (msg : Message) (s : InMemoryStore)
    → local_part u ≡ u
    → lookup u s.next_uid ≡ none
    → map
        (λ (m : Message). m.uid)
        (get_messages u (add_message u msg (create_user_with_password u hash s)).0)
      ≡ 0 ∷ []
unfolding stamped
create_user-first_uid u hash msg s bare fresh = rw (
  get_messages-eq-mailbox u (add_message u msg (create_user_with_password u hash s)).0,
  mailbox-add_message u u msg (create_user_with_password u hash s),
  bare,
  text_eq_refl u,
  mailbox-create_user u u hash s,
  text_eq_refl u,
  uid_after-create_user u hash s fresh,
)
