-- ===== src/Imap/Listeners.antt =====
-- The update channels of pec-server/internal/common/imap-server.go, with every call of a mailbox
-- as one step: what NotifyUpdate and StopListenUpdates do in the states that are then reached.
use go_pec.Base.{
  All, All-append, Text, Outcome, ok, ◌≡◌, refl, true, false, not, ◌&&◌, ◌||◌, some, List, [], ◌∷◌,
  map, arith,
}
use go_pec.Imap.Updates.{
  new_listener, listen_updates, stop_one, notify_one, each, stop_listen_updates, notify_update,
  turn, read_update, Listener, ImapMailbox,
}
use go_pec.Imap.Server.{new_mailbox}

-- A client is registered as long as its channel is open, and the goroutine ends after it is closed
-- and empty.
abbrev pub IsSound : Listener → Type 0
IsSound l =
    (l.closed ≡ not l.registered) × ((l.ended && (l.registered || l.pending || l.holding)) ≡ false)

pub data Move (l : Listener) : Listener → Type 0 where
  turned : {k : Listener} → turn l ≡ some k → Move l k
  taken : {k : Listener} → read_update l ≡ some k → Move l k

-- One listener of several moves.
pub data Moves : List Listener → List Listener → Type 0 where
  here : {l k : Listener} {ls : List Listener} → Move l k → Moves (l ∷ ls) (k ∷ ls)
  there : {l : Listener} {ls ks : List Listener} → Moves ls ks → Moves (l ∷ ls) (l ∷ ks)

pub data Event (m : ImapMailbox) : ImapMailbox → Type 0 where
  listening : Event m (listen_updates m)
  stopping : {k : ImapMailbox} → stop_listen_updates m ≡ ok k → Event m k
  notifying : {k : ImapMailbox} → notify_update m ≡ ok k → Event m k
  moving : {ls : List Listener} → Moves m.listeners ls → Event m (record m { listeners = ls })

pub data Reached : ImapMailbox → Type 0 where
  fresh : (name username : Text) → Reached (new_mailbox name username)
  after : {m k : ImapMailbox} → Reached m → Event m k → Reached k

-- A registered client has a notification waiting; the others are as they were.
abbrev pub notified : Listener → Listener
notified l = record l { pending = l.registered || l.pending }

abbrev pub stopped : Listener → Listener
stopped l = record l { registered = false; closed = true }

notify_one_sound : (l : Listener) → IsSound l → notify_one l ≡ ok (notified l)
unfolding notify_one
notify_one_sound l h = ground arith

stop_one_sound : (l : Listener) → IsSound l → stop_one l ≡ ok (stopped l)
unfolding stop_one
stop_one_sound l h = ground arith

each_sound :
    (f : Listener → Outcome Listener) (g : Listener → Listener)
    → ((l : Listener) → IsSound l → f l ≡ ok (g l))
    → (ls : List Listener) → All IsSound ls
    → each f ls ≡ ok (map g ls)
unfolding each
each_sound f g e [] h = refl
each_sound f g e (l ∷ ls) (p, h) = rw (e l p, each_sound f g e ls h) refl

All-map :
    (g : Listener → Listener)
    → ((l : Listener) → IsSound l → IsSound (g l))
    → (ls : List Listener) → All IsSound ls
    → All IsSound (map g ls)
All-map g keep [] h = tt
All-map g keep (l ∷ ls) (p, h) = (keep l p, All-map g keep ls h)

notified-IsSound : (l : Listener) → IsSound l → IsSound (notified l)
notified-IsSound l h = ground arith

stopped-IsSound : (l : Listener) → IsSound l → IsSound (stopped l)
stopped-IsSound l h = ground arith

Move-IsSound : {l k : Listener} → Move l k → IsSound l → IsSound k
unfolding turn read_update
Move-IsSound {l} (turned e) h = ground arith
Move-IsSound {l} (taken e) h = ground arith

Moves-IsSound : {ls ks : List Listener} → Moves ls ks → All IsSound ls → All IsSound ks
Moves-IsSound (here st) (p, h) = (Move-IsSound st p, h)
Moves-IsSound (there st) (p, h) = (p, Moves-IsSound st h)

notify_update_sound :
    (m : ImapMailbox)
    → All IsSound m.listeners
    → notify_update m ≡ ok (record m { listeners = map notified m.listeners })
unfolding notify_update
notify_update_sound m h = rw (each_sound notify_one notified notify_one_sound m.listeners h) refl

stop_sound :
    (m : ImapMailbox)
    → All IsSound m.listeners
    → stop_listen_updates m ≡ ok (record m { listeners = map stopped m.listeners })
unfolding stop_listen_updates
stop_sound m h = rw (each_sound stop_one stopped stop_one_sound m.listeners h) refl

pub Reached-IsSound : {m : ImapMailbox} → Reached m → All IsSound m.listeners
unfolding listen_updates
Reached-IsSound (fresh name username) = tt
Reached-IsSound (after {m} r listening) =
    All-append IsSound m.listeners (new_listener ∷ []) (Reached-IsSound r) ((refl, refl), tt)
Reached-IsSound (after {m} r (stopping {k} e)) =
    let same : k ≡ record m { listeners = map stopped m.listeners } =
      ground (arith, e, stop_sound m (Reached-IsSound r)) in
    rw same (All-map stopped stopped-IsSound m.listeners (Reached-IsSound r))
Reached-IsSound (after {m} r (notifying {k} e)) =
    let same : k ≡ record m { listeners = map notified m.listeners } =
      ground (arith, e, notify_update_sound m (Reached-IsSound r)) in
    rw same (All-map notified notified-IsSound m.listeners (Reached-IsSound r))
Reached-IsSound (after r (moving st)) = Moves-IsSound st (Reached-IsSound r)

-- In every state of a mailbox that whole calls, the goroutines and the readers lead to, NotifyUpdate
-- and StopListenUpdates do not panic: the one leaves a notification with each registered client and
-- nothing else, the other closes and unregisters every client, whichever channel it is given.
pub Reached-calls :
    {m : ImapMailbox}
    → Reached m
    → (notify_update m ≡ ok (record m { listeners = map notified m.listeners }))
      × (stop_listen_updates m ≡ ok (record m { listeners = map stopped m.listeners }))
Reached-calls {m} r = (notify_update_sound m (Reached-IsSound r), stop_sound m (Reached-IsSound r))
