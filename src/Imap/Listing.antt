-- ===== src/Imap/Listing.antt =====
-- ListMessages and SearchMessages of pec-server/internal/common/imap-server.go against the store:
-- what a FETCH of a number sends is the message that the number stands for.
use mathlib.Core.Path.{subst}
use go_pec.Base.{
  ◌==◌, if◌then◌else◌, Bool-cases, length, get_elem?, All, Text, ok, ℕ, suc, ◌+◌, ◌%◌, ◌^◌, ◌≤◌,
  ◌<◌, ◌≡◌, refl, sym, ap, ◌∙◌, ◌≢◌, inl, inr, Bool, true, Option, none, some, List, [], ◌∷◌, arith,
}
use go_pec.Storage.{get_messages, find_uid, get_message, Message, InMemoryStore}
use go_pec.Storage.Uids.{IsAscending, IsValid}
use go_pec.Storage.Mailboxes.{get_messages-eq-mailbox}
use go_pec.Storage.View.{get_message-eq-find_uid}
use go_pec.Imap.Library.{FetchItem, ImapLibrary}
use go_pec.Imap.Fetch.{fetched, list_from, list_messages, search_from, search_messages}
use go_pec.Imap.Keys.{
  key, only, Ascending, get_elem-search_from, search_from-Ascending, list_from-missing,
  list_from-found,
}

-- The place of a UID in a mailbox, counted from 1.
abbrev pub place : ℕ → List Message → ℕ
place n [] = 0
place n (m ∷ ms) = if m.uid == n then 1 else suc (place n ms)

find_uid-get_elem :
    (n : ℕ) (ms : List Message) {msg : Message}
    → find_uid n ms ≡ some msg
    → (i : ℕ) × (get_elem? ms i ≡ some msg) × (msg.uid ≡ n) × (i + 1 ≡ place n ms)
unfolding find_uid
find_uid-get_elem n [] e = cc
find_uid-get_elem n (m ∷ ms) e = elim (Bool-cases (m.uid == n)) [
  | inl same ↦ (0, ground (arith, same), ground (arith, same), ground (arith, same))
  | inr other ↦
      let (i, at, is, here) = find_uid-get_elem n ms (ground (arith, other)) in
      (suc i, at, is, ground (arith, other, here))
]

find_uid-missing {ℓ} :
    {C : Type ℓ} (c : C) (n j : ℕ) (ms : List Message)
    → find_uid n ms ≡ none
    → All (λ k. k ≢ n) (search_from true c j ms)
unfolding find_uid search_from
find_uid-missing c n j [] e = tt
find_uid-missing c n j (m ∷ ms) e =
    (λ same. ground arith, find_uid-missing c n (suc j) ms (ground arith))

found_in :
    (u : Text) (n : ℕ) (s : InMemoryStore) → get_message u n s ≡ find_uid n (get_messages u s)
found_in u n s = get_message-eq-find_uid u n s ∙ ap (find_uid n) (sym (get_messages-eq-mailbox u s))

listed-IsAscending : (u : Text) (s : InMemoryStore) → IsValid s → IsAscending (get_messages u s)
listed-IsAscending u s valid = rw (get_messages-eq-mailbox u s) (valid u).1

module _ {ℓ} {C : Type ℓ} (criteria : C) (u : Text) (s : InMemoryStore) (valid : IsValid s) where
  uids-Ascending : Ascending (search_from true criteria 0 (get_messages u s))
  uids-Ascending =
      search_from-Ascending criteria true 0 (get_messages u s) (λ _. listed-IsAscending u s valid)
        (λ e. absurd cc)

module _ {ℓ} {C : Type ℓ} (criteria : C) (uid : Bool) (i : ℕ) (ms : List Message)
    {msg : Message} where
  search_key :
      get_elem? ms i ≡ some msg → get_elem? (search_from uid criteria 0 ms) i ≡ some (key uid i msg)
  search_key at =
      subst (λ j. get_elem? (search_from uid criteria 0 ms) i ≡ some (key uid j msg)) (omega arith)
        (get_elem-search_from criteria uid 0 i ms at)

  list_from_start :
      (lib : ImapLibrary) (n : ℕ) (items : List FetchItem)
      → 1 ≤ n
      → Ascending (search_from uid criteria 0 ms)
      → get_elem? ms i ≡ some msg
      → key uid i msg ≡ n
      → list_from lib uid (only n) items 0 ms ≡ fetched lib ((i + 1) % 2 ^ 32) msg items ∷ []
  list_from_start lib n items h a at =
      subst
        (λ j.
          key uid j msg ≡ n
          → list_from lib uid (only n) items 0 ms ≡ fetched lib ((j + 1) % 2 ^ 32) msg items ∷ [])
        (omega arith) (list_from-found criteria lib uid n 0 i items ms h a at)

module _ (lib : ImapLibrary) where
  -- What FETCH sends for a message that was found, or not.
  abbrev pub sent : ℕ → List FetchItem → Option Message → List Message
  sent n items none = []
  sent n items (some msg) = fetched lib (n % 2 ^ 32) msg items ∷ []

  sent-find_uid :
      (n : ℕ) (items : List FetchItem) (ms : List Message) (found : Option Message)
      → find_uid n ms ≡ found
      → Ascending (search_from true (tt {0}) 0 ms)
      → 1 ≤ n
      → list_from lib true (only n) items 0 ms ≡ sent (place n ms) items found
  sent-find_uid n items ms none e a h =
      list_from-missing (tt {0}) lib true n 0 items ms h (find_uid-missing (tt {0}) n 0 ms e)
  sent-find_uid n items ms (some msg) e a h =
      let (i, at, is, here) = find_uid-get_elem n ms e in
      list_from_start (tt {0}) true i ms lib n items h a at is
      ∙ ap (λ k. fetched lib (k % 2 ^ 32) msg items ∷ []) here

  -- In a valid store, FETCH by one UID, at least 1, sends a copy of the message that GetMessage
  -- finds under it, with its place in the mailbox as sequence number, and nothing if there is none.
  pub list_messages-get_message :
      (u : Text) (n : ℕ) (items : List FetchItem) (s : InMemoryStore)
      → IsValid s
      → 1 ≤ n
      → list_messages lib u true (only n) items s
        ≡ (sent (place n (get_messages u s)) items (get_message u n s), ok tt)
  unfolding list_messages
  list_messages-get_message u n items s valid h =
      ap (λ l. (l, ok tt))
        (sent-find_uid n items (get_messages u s) (get_message u n s) (sym (found_in u n s))
          (uids-Ascending (tt {0}) u s valid) h)

  -- In a valid store, with a mailbox whose messages can be counted with 32 bits, the number that
  -- SEARCH gives for a message, as UID or as sequence number, FETCHes a copy of that message alone,
  -- unless it is the UID 0.
  pub list_messages-search_messages {ℓ} :
      {C : Type ℓ} (criteria : C) (u : Text) (uid : Bool) (i n : ℕ) (msg : Message)
      (items : List FetchItem) (s : InMemoryStore)
      → IsValid s
      → length (get_messages u s) < 2 ^ 32
      → get_elem? (get_messages u s) i ≡ some msg
      → get_elem? (search_messages u uid criteria s) i ≡ some n
      → 1 ≤ n
      → list_messages lib u uid (only n) items s
        ≡ (fetched lib ((i + 1) % 2 ^ 32) msg items ∷ [], ok tt)
  unfolding list_messages search_messages
  list_messages-search_messages criteria u uid i n msg items s valid fits at found h =
      let same : key uid i msg ≡ n =
        ground (arith, search_key criteria uid i (get_messages u s) at, found) in
      rw
        (list_from_start criteria uid i (get_messages u s) lib n items h
          (search_from-Ascending criteria uid 0 (get_messages u s)
            (λ _. listed-IsAscending u s valid) (λ _. omega (arith, fits)))
          at same)
        refl
