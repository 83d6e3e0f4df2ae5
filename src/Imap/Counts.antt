-- ===== src/Imap/Counts.antt =====
-- Status of pec-server/internal/common/imap-server.go against the UIDs of the store, and what is
-- seen of the first mail of a user that a login has made.
use mathlib.Core.Path.{subst}
use go_pec.Base.{
  if◌then◌else◌, Bool-cases, length, any, All, All-mono, Text, lookup, ok, ℕ, suc, ◌+◌, ◌%◌, ◌^◌,
  ◌≤◌, ◌<◌, ◌≡◌, refl, sym, ap, ◌∙◌, inl, inr, Bool, true, false, none, List, [], ◌∷◌, map, arith,
}
use go_pec.Storage.{
  mailbox, local_part, open_mailbox, add_message, get_messages, user_exists,
  create_user_with_password, Message, InMemoryStore,
}
use go_pec.Storage.Uids.{UidsBelow, IsAscending, IsValid, assigned_uid, open_mailbox-IsValid}
use go_pec.Storage.Mailboxes.{get_messages-eq-mailbox, mailbox-open_mailbox}
use go_pec.Storage.Recipients.{create_user-first_uid}
use go_pec.Imap.Library.{
  Bcrypt, FetchItem, StatusItem, status_messages, status_uid_next, status_uid_validity,
  status_recent, status_unseen, unknown_status, MailboxStatus, ImapLibrary,
}
use go_pec.Imap.Login.{sign_up, login}
use go_pec.Imap.Fetch.{
  set_status, set_statuses, is_all, status, in_seq_set, list_from, list_messages, search_from,
  search_messages,
}

abbrev counts : StatusItem → Bool
counts item = elim item [ status_messages ↦ true | _ ↦ false ]

abbrev foretells : StatusItem → Bool
foretells item = elim item [ status_uid_next ↦ true | _ ↦ false ]

abbrev validates : StatusItem → Bool
validates item = elim item [ status_uid_validity ↦ true | _ ↦ false ]

-- A status with these three fields and nothing recent or unseen.
abbrev summary : Text → ℕ → ℕ → ℕ → MailboxStatus
summary name messages uid_next uid_validity = record {
  name = name;
  messages = messages;
  recent = 0;
  unseen = 0;
  uid_next = uid_next;
  uid_validity = uid_validity;
}

set_statuses-summary :
    (count : ℕ) (items : List StatusItem) (name : Text) (m n v : ℕ)
    → set_statuses count items (summary name m n v)
      ≡ summary name
          (if any counts items then count % 2 ^ 32 else m)
          (if any foretells items then (count + 1) % 2 ^ 32 else n)
          (if any validates items then 1 else v)
unfolding set_statuses set_status
set_statuses-summary count [] name m n v = refl
set_statuses-summary count (status_messages ∷ items) name m n v =
    set_statuses-summary count items name (count % 2 ^ 32) n v ∙ ground arith
set_statuses-summary count (status_uid_next ∷ items) name m n v =
    set_statuses-summary count items name m ((count + 1) % 2 ^ 32) v ∙ ground arith
set_statuses-summary count (status_uid_validity ∷ items) name m n v =
    set_statuses-summary count items name m n 1 ∙ ground arith
set_statuses-summary count (status_recent ∷ items) name m n v =
    set_statuses-summary count items name m n v
set_statuses-summary count (status_unseen ∷ items) name m n v =
    set_statuses-summary count items name m n v
set_statuses-summary count (unknown_status _ ∷ items) name m n v =
    set_statuses-summary count items name m n v

-- UIDs that ascend from 1 on and lie below a number are fewer than it.
length-UidsBelow :
    (low n : ℕ) (ms : List Message)
    → low ≤ n
    → All (λ m. low ≤ m.uid) ms
    → UidsBelow n ms
    → IsAscending ms
    → low + length ms ≤ n
length-UidsBelow low n [] h a b c = omega arith
length-UidsBelow low n (m ∷ ms) h (p, a) (q, b) (r, c) = omega (
  arith,
  length-UidsBelow (m.uid + 1) n ms (omega arith) (All-mono ms (λ k more. omega (arith, more)) r) b
      c,
)

room_left :
    (u : Text) (s : InMemoryStore)
    → IsValid s
    → local_part u ≡ u
    → 1 ≤ assigned_uid u s
    → All (λ m. 1 ≤ m.uid) (get_messages u s)
    → 1 + length (get_messages u s) ≤ assigned_uid u s
room_left u s valid bare first from =
    let same : mailbox (local_part u) (open_mailbox (local_part u) s) ≡ get_messages u s =
      mailbox-open_mailbox (local_part u) (local_part u) s
      ∙ ap (λ v. mailbox v s) bare
      ∙ sym (get_messages-eq-mailbox u s) in
    let (below, ascending) = open_mailbox-IsValid (local_part u) s valid (local_part u) in
    length-UidsBelow 1 (assigned_uid u s) (get_messages u s) first from
      (subst (UidsBelow (assigned_uid u s)) same below) (subst IsAscending same ascending)

module _ (lib : ImapLibrary) where
  open lib use {new_mailbox_status-empty}

  status-eq-summary :
      (name u : Text) (items : List StatusItem) (s : InMemoryStore)
      → status lib name u items s
        ≡ summary name
            (if any counts items then length (get_messages u s) % 2 ^ 32 else 0)
            (if any foretells items then (length (get_messages u s) + 1) % 2 ^ 32 else 0)
            (if any validates items then 1 else 0)
  unfolding status
  status-eq-summary name u items s =
      rw (new_mailbox_status-empty name items)
        (set_statuses-summary (length (get_messages u s)) items name 0 0 0)

  -- In a valid store, for a user whose name is a mailbox name, whose messages have UIDs from 1 on,
  -- and whose next UID is at least 1 and below 2 ^ 32, a STATUS that asks for MESSAGES gives the
  -- number of messages, and its UIDNEXT is not above the UID that the next mail gets.
  pub status-bounds :
      (name u : Text) (items : List StatusItem) (s : InMemoryStore)
      → IsValid s
      → local_part u ≡ u
      → 1 ≤ assigned_uid u s
      → assigned_uid u s < 2 ^ 32
      → All (λ m. 1 ≤ m.uid) (get_messages u s)
      → any counts items ≡ true
      → ((status lib name u items s).uid_next ≤ assigned_uid u s)
        × ((status lib name u items s).messages ≡ length (get_messages u s))
  status-bounds name u items s valid bare first fits from asked =
      let room : 1 + length (get_messages u s) ≤ assigned_uid u s =
        room_left u s valid bare first from in
      rw (status-eq-summary name u items s, asked)
        (
          elim (Bool-cases (any foretells items)) [
            | inl told ↦ rw told (omega (arith, room))
            | inr untold ↦ rw untold (omega (arith))
          ],
          omega (arith, room, fits),
        )

search_from-map {ℓ} :
    {C : Type ℓ} (c : C) (j : ℕ) (ms : List Message)
    → search_from true c j ms ≡ map (λ (m : Message). m.uid) ms
unfolding search_from
search_from-map c j [] = refl
search_from-map c j (m ∷ ms) = ap (λ ns. m.uid ∷ ns) (search_from-map c (suc j) ms)

login-new :
    (bcrypt : Bcrypt) (u salt password hash : Text) (s : InMemoryStore)
    → user_exists u s ≡ false
    → bcrypt.generate_from_password salt password ≡ ok hash
    → (login bcrypt salt u password s).0 ≡ create_user_with_password u hash s
unfolding login sign_up
login-new bcrypt u salt password hash s new made = rw (new, made) refl

list_from-zero :
    (lib : ImapLibrary) (first last j : ℕ) (items : List FetchItem) (ms : List Message)
    → 1 ≤ first
    → first ≤ last
    → map (λ (m : Message). m.uid) ms ≡ 0 ∷ []
    → list_from lib true (record { start = first; stop = last } ∷ []) items j ms ≡ []
unfolding list_from in_seq_set is_all
list_from-zero lib first last j items [] h k e = refl
list_from-zero lib first last j items (m ∷ []) h k e =
    ground (arith, lib.contains-range first last m.uid h k)
list_from-zero lib first last j items (m ∷ n ∷ ms) h k e = cc

module _ (lib : ImapLibrary) (bcrypt : Bcrypt) where
  open bcrypt use {generate_from_password}

  -- The first mail of a user whom a login has made, with a password that could be hashed and a name
  -- that is a mailbox name and has no UID counter yet, has the UID 0: SEARCH lists it so, and no
  -- FETCH of a range of UIDs from 1 on to a number sends it.
  pub first_mail_hidden {ℓ} :
      {C : Type ℓ} (criteria : C) (u salt password hash : Text) (msg : Message) (first last : ℕ)
      (items : List FetchItem) (s : InMemoryStore)
      → local_part u ≡ u
      → user_exists u s ≡ false
      → lookup u s.next_uid ≡ none
      → generate_from_password salt password ≡ ok hash
      → 1 ≤ first
      → first ≤ last
      → (search_messages u true criteria (add_message u msg (login bcrypt salt u password s).0).0
          ≡ 0 ∷ [])
        × (list_messages lib u true
              (record { start = first; stop = last } ∷ [])
              items
              (add_message u msg (login bcrypt salt u password s).0).0
            ≡ ([], ok tt))
  unfolding search_messages list_messages
  first_mail_hidden criteria u salt password hash msg first last items s bare new unseen made h k =
      let t : InMemoryStore = (add_message u msg (login bcrypt salt u password s).0).0 in
      let uids : map (λ (m : Message). m.uid) (get_messages u t) ≡ 0 ∷ [] =
        rw (login-new bcrypt u salt password hash s new made)
          (create_user-first_uid u hash msg s bare unseen) in
      (
        search_from-map criteria 0 (get_messages u t) ∙ uids,
        ap (λ l. (l, ok tt)) (list_from-zero lib first last 0 items (get_messages u t) h k uids),
      )
