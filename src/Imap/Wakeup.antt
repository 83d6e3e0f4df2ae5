-- ===== src/Imap/Wakeup.antt =====
-- From AddMessage of pec-server/internal/storage/in-memory.go to the readers of the update channels
-- of pec-server/internal/common/imap-server.go, and from StopListenUpdates to their end.
use mathlib.Core.Path.{subst}
use go_pec.Base.{
  length, get_elem?, get_elem-append_length, All, Text, lookup, lookup-insert, ok, ℕ, zero, suc,
  ◌≡◌, refl, ap, ◌∙◌, true, not, ◌||◌, none, some, List, [], ◌∷◌, map, arith,
}
use go_pec.Storage.{register_notifier, local_part, add_message, Message}
use go_pec.Imap.Updates.{
  stop_listen_updates, notify_update, turn, read_update, Listener, ImapMailbox,
}
use go_pec.Imap.Server.{inbox, new_mailbox, get_mailbox, notify_at, wake, deliver, ImapState}
use go_pec.Imap.Listeners.{IsSound, notified, stopped, Reached-IsSound, Reached-calls, Reached}
use go_pec.Base.TextLaws.{text_eq_refl}
use go_pec.Imap.Login.{ImapUser}

-- The goroutine takes up to `n` steps.
abbrev pub turns : ℕ → Listener → Listener
turns zero l = l
turns (suc n) l = elim (turn l) [ none ↦ l | some k ↦ turns n k ]

-- `n` steps, of the goroutine where it can go on and of the reader where it cannot.
abbrev pub rounds : ℕ → Listener → Listener
rounds zero l = l
rounds (suc n) l = elim (turn l) [
  | some k ↦ rounds n k
  | none ↦ elim (read_update l) [ some k ↦ rounds n k | none ↦ l ]
]

abbrev pub IsReady : Listener → Type 0
IsReady l = (not l.registered || (turns 2 l).ready) ≡ true

notified-IsReady : (l : Listener) → IsSound l → IsReady (notified l)
unfolding turn
notified-IsReady l h = ground arith

stopped-ended : (l : Listener) → IsSound l → (rounds 6 (stopped l)).ended ≡ true
unfolding turn read_update
stopped-ended l h = ground arith

All-of-map :
    (P : Listener → Type 0) (g : Listener → Listener)
    → ((l : Listener) → IsSound l → P (g l))
    → (ls : List Listener) → All IsSound ls
    → All P (map g ls)
All-of-map P g keep [] h = tt
All-of-map P g keep (l ∷ ls) (p, h) = (keep l p, All-of-map P g keep ls h)

-- After StopListenUpdates, in every state of a mailbox that whole calls lead to, the channel of each
-- listener is closed within six steps in which its goroutine goes on where it can and its reader
-- reads where it cannot: also that of the listeners whose channel was not the one given.
pub stop-ended :
    {m k : ImapMailbox}
    → Reached m
    → stop_listen_updates m ≡ ok k
    → All (λ l. (rounds 6 l).ended ≡ true) k.listeners
stop-ended {m} {k} r e =
    let same : k ≡ record m { listeners = map stopped m.listeners } =
      ground (arith, e, (Reached-calls r).1) in
    rw same (
      All-of-map (λ l. (rounds 6 l).ended ≡ true) stopped stopped-ended m.listeners
        (Reached-IsSound r))

-- The mailbox object at one position, changed.
abbrev pub update_at : ℕ → (ImapMailbox → ImapMailbox) → List ImapMailbox → List ImapMailbox
update_at i f [] = []
update_at zero f (m ∷ ms) = f m ∷ ms
update_at (suc i) f (m ∷ ms) = m ∷ update_at i f ms

abbrev pub woken : ImapMailbox → ImapMailbox
woken m = record m { listeners = map notified m.listeners }

notify_at-found :
    (i : ℕ) (ms : List ImapMailbox) {m : ImapMailbox}
    → get_elem? ms i ≡ some m
    → Reached m
    → notify_at i ms ≡ ok (update_at i woken ms)
unfolding notify_at
notify_at-found i [] e r = cc
notify_at-found zero (k ∷ ms) {m} e r =
    let same : m ≡ k = ground arith in
    rw (subst (λ x. notify_update x ≡ ok (woken x)) same (Reached-calls r).0) refl
notify_at-found (suc i) (k ∷ ms) e r = rw (notify_at-found i ms e r) refl

-- Mail for a name for which the store keeps a callback, that of a mailbox object in a state that
-- whole calls lead to, is stored without a panic. That object and no other changes: each of its
-- registered clients is notified, and has an update for its reader after at most two steps of its
-- goroutine. Objects that were opened before for the same name stay as they are.
pub deliver-wakes :
    (u to : Text) (msg : Message) (i : ℕ) (m : ImapMailbox) (w : ImapState)
    → local_part to ≡ u
    → lookup u w.store.notifiers ≡ some i
    → get_elem? w.mailboxes i ≡ some m
    → Reached m
    → (deliver to msg w
        ≡ ok (record {
          store = (add_message to msg w.store).0;
          mailboxes = update_at i woken w.mailboxes;
        }))
      × All IsReady (woken m).listeners
unfolding deliver add_message wake
deliver-wakes u to msg i m w bare opened at r = (
  ap (λ found. wake (add_message to msg w.store).0 found w)
        (ap (λ v. lookup v w.store.notifiers) bare ∙ opened)
      ∙ rw (notify_at-found i w.mailboxes at r) refl,
  All-of-map IsReady notified notified-IsReady m.listeners (Reached-IsSound r),
)

-- GetMailbox of INBOX opens a new mailbox object and makes it the one that is notified for the user,
-- whichever was so before.
pub get_mailbox-opened :
    (u : ImapUser) (w : ImapState)
    → ((get_mailbox u inbox w).1 ≡ ok (length w.mailboxes))
      × (lookup u.username (get_mailbox u inbox w).0.store.notifiers ≡ some (length w.mailboxes))
      × (get_elem? (get_mailbox u inbox w).0.mailboxes (length w.mailboxes)
          ≡ some (new_mailbox inbox u.username))
unfolding get_mailbox register_notifier
get_mailbox-opened u w = rw (text_eq_refl inbox) (
  refl,
  lookup-insert u.username u.username (length w.mailboxes) w.store.notifiers
      ∙ ground (arith, text_eq_refl u.username),
  get_elem-append_length w.mailboxes (new_mailbox inbox u.username),
)
