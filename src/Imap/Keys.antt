-- ===== src/Imap/Keys.antt =====
-- The numbers by which ListMessages and SearchMessages know the messages of a mailbox: UIDs or
-- sequence numbers, and that each stands for one message.
use go_pec.Base.{
  ◌==◌, if◌then◌else◌, ==_iff, length, get_elem?, All, All-get_elem?, ℕ, zero, suc, ◌+◌, ◌%◌, ◌^◌,
  ◌≤◌, ◌<◌, ◌≡◌, refl, sym, ap, ◌∙◌, ◌≢◌, Bool, true, false, some, List, [], ◌∷◌, arith,
}
use go_pec.Storage.{Message}
use go_pec.Storage.Uids.{IsAscending}
use go_pec.Imap.Library.{Seq, FetchItem, ImapLibrary}
use go_pec.Imap.Fetch.{is_all, fetched, in_seq_set, list_from, search_from}

-- The number of one message, whose index is `i`.
abbrev pub key : Bool → ℕ → Message → ℕ
key uid i msg = if uid then msg.uid else (i + 1) % 2 ^ 32

-- The set of one number.
abbrev pub only : ℕ → List Seq
only n = record { start = n; stop = n } ∷ []

abbrev pub Ascending : List ℕ → Type 0
Ascending [] = Unit
Ascending (n ∷ ns) = All (λ k. n < k) ns × Ascending ns

module _ {ℓ} {C : Type ℓ} (criteria : C) where
  pub get_elem-search_from :
      (uid : Bool) (j i : ℕ) (ms : List Message) {msg : Message}
      → get_elem? ms i ≡ some msg
      → get_elem? (search_from uid criteria j ms) i ≡ some (key uid (j + i) msg)
  unfolding search_from
  get_elem-search_from uid j i [] e = cc
  get_elem-search_from uid j zero (m ∷ ms) e = ground arith
  get_elem-search_from uid j (suc i) (m ∷ ms) {msg} e =
      get_elem-search_from uid (suc j) i ms e ∙ ap (λ k. some (key uid k msg)) (omega arith)

  length-search_from :
      (uid : Bool) (j : ℕ) (ms : List Message) → length (search_from uid criteria j ms) ≡ length ms
  unfolding search_from
  length-search_from uid j [] = refl
  length-search_from uid j (m ∷ ms) = omega (arith, length-search_from uid (suc j) ms)

  search_from-above :
      (n : ℕ) (j : ℕ) (ms : List Message)
      → All (λ m. n < m.uid) ms
      → All (λ k. n < k) (search_from true criteria j ms)
  unfolding search_from
  search_from-above n j [] h = tt
  search_from-above n j (m ∷ ms) (p, h) = (p, search_from-above n (suc j) ms h)

  search_from-after :
      (n : ℕ) (j : ℕ) (ms : List Message)
      → n ≤ j
      → j + length ms < 2 ^ 32
      → All (λ k. n < k) (search_from false criteria j ms)
  unfolding search_from
  search_from-after n j [] h b = tt
  search_from-after n j (m ∷ ms) h b =
      (omega arith, search_from-after n (suc j) ms (omega arith) (omega arith))

  -- The numbers ascend: UIDs where the store keeps them so, sequence numbers where they fit.
  pub search_from-Ascending :
      (uid : Bool) (j : ℕ) (ms : List Message)
      → (uid ≡ true → IsAscending ms)
      → (uid ≡ false → j + length ms < 2 ^ 32)
      → Ascending (search_from uid criteria j ms)
  unfolding search_from
  search_from-Ascending uid j [] a b = tt
  search_from-Ascending true j (m ∷ ms) a b = (
    search_from-above m.uid (suc j) ms (a refl).0,
    search_from-Ascending true (suc j) ms (λ _. (a refl).1) (λ e. absurd cc),
  )
  search_from-Ascending false j (m ∷ ms) a b = (
    search_from-after ((j + 1) % 2 ^ 32) (suc j) ms (omega (arith, b refl)) (omega (arith, b refl)),
    search_from-Ascending false (suc j) ms (λ e. absurd cc) (λ _. omega (arith, b refl)),
  )

module _ (lib : ImapLibrary) where
  open lib use {contains, contains-range}

  contains-only : (n q : ℕ) → 1 ≤ n → contains (only n) q ≡ (n == q)
  contains-only n q h = contains-range n n q h (omega arith) ∙ ground arith

  in_seq_set-only :
      (uid : Bool) (n i : ℕ) (msg : Message)
      → 1 ≤ n
      → in_seq_set lib uid (only n) ((i + 1) % 2 ^ 32) msg ≡ (n == key uid i msg)
  unfolding in_seq_set is_all
  in_seq_set-only true n i msg h = ground (arith, contains-only n msg.uid h)
  in_seq_set-only false n i msg h = ground (arith, contains-only n ((i + 1) % 2 ^ 32) h)

module _ {ℓ} {C : Type ℓ} (criteria : C) (lib : ImapLibrary) where
  list_from-hit :
      (uid : Bool) (n j : ℕ) (items : List FetchItem) (m : Message) (ms : List Message)
      → 1 ≤ n
      → key uid j m ≡ n
      → list_from lib uid (only n) items j (m ∷ ms)
        ≡ fetched lib ((j + 1) % 2 ^ 32) m items ∷ list_from lib uid (only n) items (suc j) ms
  unfolding list_from
  list_from-hit uid n j items m ms h e =
      let same : (n == key uid j m) ≡ true = (==_iff n (key uid j m)).1 (sym e) in
      rw (in_seq_set-only lib uid n j m h, same) refl

  list_from-miss :
      (uid : Bool) (n j : ℕ) (items : List FetchItem) (m : Message) (ms : List Message)
      → 1 ≤ n
      → key uid j m ≢ n
      → list_from lib uid (only n) items j (m ∷ ms) ≡ list_from lib uid (only n) items (suc j) ms
  unfolding list_from
  list_from-miss uid n j items m ms h e =
      let other : (n == key uid j m) ≡ false = ground (arith, ==_iff n (key uid j m)) in
      rw (in_seq_set-only lib uid n j m h, other) refl

  pub list_from-missing :
      (uid : Bool) (n j : ℕ) (items : List FetchItem) (ms : List Message)
      → 1 ≤ n
      → All (λ k. k ≢ n) (search_from uid criteria j ms)
      → list_from lib uid (only n) items j ms ≡ []
  unfolding list_from search_from
  list_from-missing uid n j items [] h a = refl
  list_from-missing uid n j items (m ∷ ms) h (p, a) =
      list_from-miss uid n j items m ms h p ∙ list_from-missing uid n (suc j) items ms h a

  All-above : (n : ℕ) (ks : List ℕ) → All (λ k. n < k) ks → All (λ k. k ≢ n) ks
  All-above n [] h = tt
  All-above n (k ∷ ks) (p, h) = (λ e. omega (arith, p, e), All-above n ks h)

  -- The set of the number of a message picks that message.
  pub list_from-found :
      (uid : Bool) (n j i : ℕ) (items : List FetchItem) (ms : List Message) {msg : Message}
      → 1 ≤ n
      → Ascending (search_from uid criteria j ms)
      → get_elem? ms i ≡ some msg
      → key uid (j + i) msg ≡ n
      → list_from lib uid (only n) items j ms ≡ fetched lib ((j + i + 1) % 2 ^ 32) msg items ∷ []
  unfolding search_from
  list_from-found uid n j i items [] h a e k = cc
  list_from-found uid n j zero items (m ∷ ms) {msg} h (p, a) e k =
      let same : m ≡ msg = ground arith in
      let here : j + 0 ≡ j = omega arith in
      let first : key uid j m ≡ n =
        ap (λ x. key uid x m) (sym here) ∙ ap (key uid (j + 0)) same ∙ k in
      rw (here, ← same)
        (list_from-hit uid n j items m ms h first
          ∙ ap (λ rest. fetched lib ((j + 1) % 2 ^ 32) m items ∷ rest)
              (list_from-missing uid n (suc j) items ms h
                (All-above n (search_from uid criteria (suc j) ms) (rw (← first) p))))
  list_from-found uid n j (suc i) items (m ∷ ms) {msg} h (p, a) e k =
      let there : j + suc i ≡ suc j + i = omega arith in
      let later : key uid (suc j + i) msg ≡ n = rw (← there) k in
      let below : key uid j m < key uid (suc j + i) msg =
        All-get_elem? (λ k. key uid j m < k) (search_from uid criteria (suc j) ms) i p
          (get_elem-search_from criteria uid (suc j) i ms e) in
      rw there (
        list_from-miss uid n j items m ms h (λ e. omega (arith, below, later, e))
        ∙ list_from-found uid n (suc j) i items ms h a e later)
