-- ===== src/Storage/View.antt =====
-- pec-server/internal/storage/in-memory.go against its contract in message-store.go: the store as a
-- map from users and UIDs to messages, which each method updates at one place.
use go_pec.Base.{
  ◌==◌, if◌then◌else◌, Bool-cases, All, Text, text_eq, ℕ, ◌≤◌, ◌<◌, ◌≡◌, refl, ◌∙◌, inl, inr, true,
  ◌&&◌, none, some, List, [], ◌∷◌, ◌++◌, arith,
}
use go_pec.Base.TextLaws.{text_eq_iff}
use go_pec.Storage.Defs.{
  mailbox, local_part, open_mailbox, stamped, add_message, get_messages, find_uid, get_message,
  remove_uid, delete_message, Message, InMemoryStore,
}
use go_pec.Storage.Mailboxes.{
  get_messages-eq-mailbox, mailbox-open_mailbox, mailbox-add_message, mailbox-delete_message,
}
use go_pec.Storage.Uids.{
  UidsBelow, IsAscending, IsValid, assigned_uid, open_mailbox-IsValid, Reach-IsValid, Reach,
}

pub get_message-eq-find_uid :
    (u : Text) (uid : ℕ) (s : InMemoryStore) → get_message u uid s ≡ find_uid uid (mailbox u s)
unfolding get_message find_uid
get_message-eq-find_uid u uid s = ground arith

find_uid-eq-none :
    (uid n : ℕ) (ms : List Message) → n ≤ uid → UidsBelow n ms → find_uid uid ms ≡ none
unfolding find_uid
find_uid-eq-none uid n [] h b = refl
find_uid-eq-none uid n (m ∷ ms) h (p, b) = ground (arith, find_uid-eq-none uid n ms h b)

find_uid-append :
    (uid : ℕ) (ms : List Message) (m : Message)
    → UidsBelow m.uid ms
    → find_uid uid (ms ++ m ∷ []) ≡ (if m.uid == uid then some m else find_uid uid ms)
unfolding find_uid
find_uid-append uid [] m b = refl
find_uid-append uid (k ∷ ms) m (p, b) = ground (arith, find_uid-append uid ms m b)

find_uid_of_above :
    (uid n : ℕ) (ms : List Message) → uid ≤ n → All (λ m. n < m.uid) ms → find_uid uid ms ≡ none
unfolding find_uid
find_uid_of_above uid n [] h b = refl
find_uid_of_above uid n (m ∷ ms) h (p, b) = ground (arith, find_uid_of_above uid n ms h b)

find_uid-remove_uid :
    (uid gone : ℕ) (ms : List Message)
    → IsAscending ms
    → find_uid uid (remove_uid gone ms) ≡ (if gone == uid then none else find_uid uid ms)
unfolding find_uid remove_uid
find_uid-remove_uid uid gone [] a = ground arith
find_uid-remove_uid uid gone (m ∷ ms) (p, a) =
    ground (arith, find_uid-remove_uid uid gone ms a, find_uid_of_above uid m.uid ms)

-- The message that `AddMessage` stores for a recipient.
abbrev pub stored : Text → Message → InMemoryStore → Message
stored to msg s = stamped (local_part to) msg (open_mailbox (local_part to) s)

assigned_above :
    (u to : Text) (s : InMemoryStore)
    → IsValid s
    → text_eq (local_part to) u ≡ true
    → UidsBelow (assigned_uid to s) (mailbox u s)
assigned_above u to s v same =
    rw (← mailbox-open_mailbox u (local_part to) s, ← (text_eq_iff (local_part to) u).0 same)
      (open_mailbox-IsValid (local_part to) s v (local_part to)).0

-- In a valid store, adding a message binds the mailbox of the recipient's local part and the UID
-- that was next there to the stored message, and changes nothing else of the map.
pub get_message-add_message :
    (u to : Text) (uid : ℕ) (msg : Message) (s : InMemoryStore)
    → IsValid s
    → get_message u uid (add_message to msg s).0 ≡ (
        if text_eq (local_part to) u && assigned_uid to s == uid
        then some (stored to msg s)
        else get_message u uid s)
unfolding stamped
get_message-add_message u to uid msg s v = elim (Bool-cases (text_eq (local_part to) u)) [
  | inl same ↦
      rw
        (
          get_message-eq-find_uid u uid (add_message to msg s).0,
          mailbox-add_message u to msg s,
          get_message-eq-find_uid u uid s,
          same,
        )
        (find_uid-append uid (mailbox u s) (stored to msg s) (assigned_above u to s v same))
  | inr other ↦ rw (
    get_message-eq-find_uid u uid (add_message to msg s).0,
    mailbox-add_message u to msg s,
    get_message-eq-find_uid u uid s,
    other,
  )
]

-- In a valid store, deleting a message unbinds its user and UID, and changes nothing else.
pub get_message-delete_message :
    (u v : Text) (uid gone : ℕ) (s : InMemoryStore)
    → IsValid s
    → get_message u uid (delete_message v gone s)
      ≡ (if text_eq v u && gone == uid then none else get_message u uid s)
get_message-delete_message u v uid gone s valid = elim (Bool-cases (text_eq v u)) [
  | inl same ↦
      rw
        (
          get_message-eq-find_uid u uid (delete_message v gone s),
          mailbox-delete_message u v gone s,
          get_message-eq-find_uid u uid s,
          same,
        )
        (find_uid-remove_uid uid gone (mailbox u s) (valid u).1)
  | inr other ↦ rw (
    get_message-eq-find_uid u uid (delete_message v gone s),
    mailbox-delete_message u v gone s,
    get_message-eq-find_uid u uid s,
    other,
  )
]

find_uid-skip :
    (m : Message) (ms ks : List Message)
    → All (λ k. m.uid < k.uid) ks
    → All (λ k. find_uid k.uid ms ≡ some k) ks
    → All (λ k. find_uid k.uid (m ∷ ms) ≡ some k) ks
unfolding find_uid
find_uid-skip m ms [] p q = tt
find_uid-skip m ms (k ∷ ks) (p, ps) (q, qs) = (ground arith, find_uid-skip m ms ks ps qs)

find_uid_self : (ms : List Message) → IsAscending ms → All (λ m. find_uid m.uid ms ≡ some m) ms
unfolding find_uid
find_uid_self [] a = tt
find_uid_self (m ∷ ms) (p, a) = (ground arith, find_uid-skip m ms ms p (find_uid_self ms a))

All-get_message :
    (u : Text) (s : InMemoryStore) (ms : List Message)
    → All (λ m. find_uid m.uid (mailbox u s) ≡ some m) ms
    → All (λ m. get_message u m.uid s ≡ some m) ms
All-get_message u s [] h = tt
All-get_message u s (m ∷ ms) (p, h) =
    (get_message-eq-find_uid u m.uid s ∙ p, All-get_message u s ms h)

-- In every state that the methods lead to, each listed message is the one that its UID finds.
pub get_messages-get_message :
    {s : InMemoryStore} (u : Text)
    → Reach s
    → All (λ m. get_message u m.uid s ≡ some m) (get_messages u s)
get_messages-get_message {s} u r =
    rw (get_messages-eq-mailbox u s)
      (All-get_message u s (mailbox u s) (find_uid_self (mailbox u s) (Reach-IsValid r u).1))
