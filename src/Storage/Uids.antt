-- ===== src/Storage/Uids.antt =====
-- UIDs of pec-server/internal/storage/in-memory.go: the invariant that makes them identify a
-- message, and the store seen as a map from users and UIDs to messages.
use go_pec.Base.{
  ◌==◌, Bool-cases, All, All-append, Text, text_eq, lookup, lookup-insert, ℕ, ◌+◌, ◌%◌, ◌^◌, ◌≤◌,
  ◌<◌, ◌≡◌, refl, inl, inr, List, [], ◌∷◌, ◌++◌, arith,
}
use go_pec.Base.TextLaws.{text_eq_iff}
use go_pec.Storage.Defs.{
  new_in_memory_store, register_notifier, mailbox, uid_after, local_part, open_mailbox, stamped,
  append_message, add_message, remove_uid, delete_message, close, create_user_with_password,
  Message, InMemoryStore,
}
use go_pec.Storage.Mailboxes.{mailbox-delete_message}

abbrev pub UidsBelow : ℕ → List Message → Type 0
UidsBelow n ms = All (λ m. m.uid < n) ms

abbrev pub IsAscending : List Message → Type 0
IsAscending [] = Unit
IsAscending (m ∷ ms) = All (λ k. m.uid < k.uid) ms × IsAscending ms

-- In each mailbox the UIDs ascend, and the next one to be given is above them.
abbrev pub IsValid : InMemoryStore → Type 0
IsValid s = (u : Text) → UidsBelow (uid_after u s) (mailbox u s) × IsAscending (mailbox u s)

UidsBelow-mono : {n k : ℕ} (ms : List Message) → n ≤ k → UidsBelow n ms → UidsBelow k ms
UidsBelow-mono [] h b = tt
UidsBelow-mono (m ∷ ms) h (p, b) = (omega arith, UidsBelow-mono ms h b)

IsAscending-append :
    (ms : List Message) (m : Message)
    → UidsBelow m.uid ms
    → IsAscending ms
    → IsAscending (ms ++ m ∷ [])
IsAscending-append [] m b a = (tt, tt)
IsAscending-append (k ∷ ms) m (p, b) (q, a) =
    (All-append (λ x. k.uid < x.uid) ms (m ∷ []) q (p, tt), IsAscending-append ms m b a)

All-remove_uid :
    (P : Message → Type 0) (uid : ℕ) (ms : List Message) → All P ms → All P (remove_uid uid ms)
unfolding remove_uid
All-remove_uid P uid [] h = tt
All-remove_uid P uid (m ∷ ms) (p, h) = elim (Bool-cases (m.uid == uid)) [
  | inl same ↦ rw same h
  | inr other ↦ rw other (p, All-remove_uid P uid ms h)
]

IsAscending-remove_uid :
    (uid : ℕ) (ms : List Message) → IsAscending ms → IsAscending (remove_uid uid ms)
unfolding remove_uid
IsAscending-remove_uid uid [] a = tt
IsAscending-remove_uid uid (m ∷ ms) (p, a) = elim (Bool-cases (m.uid == uid)) [
  | inl same ↦ rw same a
  | inr other ↦
      rw other (All-remove_uid (λ k. m.uid < k.uid) uid ms p, IsAscending-remove_uid uid ms a)
]

-- The UID that `AddMessage` gives to a message for this recipient.
abbrev pub assigned_uid : Text → InMemoryStore → ℕ
assigned_uid to s = uid_after (local_part to) (open_mailbox (local_part to) s)

pub open_mailbox-IsValid : (to : Text) (s : InMemoryStore) → IsValid s → IsValid (open_mailbox to s)
unfolding open_mailbox
open_mailbox-IsValid to s v u = ground (
  arith,
  v u,
  text_eq_iff to u,
  lookup-insert to u [] s.messages,
  lookup-insert to u 1 s.next_uid,
)

-- One more message, with the UID that was next.
grown :
    (n : ℕ) (ms : List Message) (m : Message)
    → m.uid ≡ n
    → n + 1 < 2 ^ 32
    → UidsBelow n ms × IsAscending ms
    → UidsBelow ((n + 1) % 2 ^ 32) (ms ++ m ∷ []) × IsAscending (ms ++ m ∷ [])
grown n ms m e h (below, ascending) = (
  All-append (λ x. x.uid < (n + 1) % 2 ^ 32) ms (m ∷ []) (UidsBelow-mono ms (omega arith) below)
      (omega arith, tt),
  IsAscending-append ms m (rw e below) ascending,
)

append_message-IsValid :
    (to : Text) (msg : Message) (s : InMemoryStore)
    → uid_after to s + 1 < 2 ^ 32
    → IsValid s
    → IsValid (append_message to msg s)
unfolding append_message stamped
append_message-IsValid to msg s h v u = elim (Bool-cases (text_eq to u)) [
  | inl same ↦ simp (lookup-insert, same) (grown (uid_after to s) (mailbox to s) _ refl h (v to))
  | inr other ↦ simp (lookup-insert, other) (v u)
]

uid_after-delete_message :
    (u w : Text) (uid : ℕ) (s : InMemoryStore)
    → uid_after u (delete_message w uid s) ≡ uid_after u s
unfolding delete_message
uid_after-delete_message u w uid s = ground arith

delete_message-IsValid :
    (w : Text) (uid : ℕ) (s : InMemoryStore) → IsValid s → IsValid (delete_message w uid s)
delete_message-IsValid w uid s v u = elim (Bool-cases (text_eq w u)) [
  | inl same ↦
      rw (mailbox-delete_message u w uid s, uid_after-delete_message u w uid s, same)
        (
          All-remove_uid (λ m. m.uid < uid_after u s) uid (mailbox u s) (v u).0,
          IsAscending-remove_uid uid (mailbox u s) (v u).1,
        )
  | inr other ↦
      rw (mailbox-delete_message u w uid s, uid_after-delete_message u w uid s, other) (v u)
]

-- The methods of the store, as steps. A mailbox whose UIDs are used up is outside the relation.
pub data Step (s : InMemoryStore) : InMemoryStore → Type 0 where
  added :
      (to : Text) (msg : Message) → assigned_uid to s + 1 < 2 ^ 32 → Step s (add_message to msg s).0
  deleted : (u : Text) (uid : ℕ) → Step s (delete_message u uid s)
  created : (u hash : Text) → Step s (create_user_with_password u hash s)
  registered : (u : Text) (notify : ℕ) → Step s (register_notifier u notify s)
  closed : Step s (close s)

pub data Reach : InMemoryStore → Type 0 where
  start : Reach new_in_memory_store
  next : {s t : InMemoryStore} → Reach s → Step s t → Reach t

Step-IsValid : {s t : InMemoryStore} → Step s t → IsValid s → IsValid t
unfolding add_message create_user_with_password register_notifier close lookup
Step-IsValid {s} (added to msg h) v u =
    append_message-IsValid (local_part to) msg (open_mailbox (local_part to) s) h
      (open_mailbox-IsValid (local_part to) s v) u
Step-IsValid {s} (deleted w uid) v u = delete_message-IsValid w uid s v u
Step-IsValid {s} (created w hash) v u = elim (Bool-cases (text_eq w u)) [
  | inl same ↦ simp (lookup-insert, same) (tt, tt)
  | inr other ↦ simp (lookup-insert, other) (v u)
]
Step-IsValid (registered w notify) v u = v u
Step-IsValid closed v u = (tt, tt)

-- In every state that the methods lead to from the new store, the UIDs of each mailbox ascend and
-- lie below the one that it gives next, as long as no mailbox uses up its UIDs.
pub Reach-IsValid : {s : InMemoryStore} → Reach s → IsValid s
unfolding new_in_memory_store lookup
Reach-IsValid start u = (tt, tt)
Reach-IsValid (next r st) u = Step-IsValid st (Reach-IsValid r) u
