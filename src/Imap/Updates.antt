-- ===== src/Imap/Updates.antt =====
-- The update channels of IMAPMailbox: ListenUpdates, StopListenUpdates, NotifyUpdate, and the
-- goroutine that carries each notification to the reader. All channels hold one value.
use go_pec.Base.{
  if◌then◌else◌, Text, ◌>>=◌, Outcome, ok, panic, Bool, true, false, Option, none, some, List, [],
  ◌∷◌, ◌++◌,
}

-- One call of ListenUpdates: `registered` as long as its `updateCh` is in `idleClients`, `closed`
-- when that channel is, `pending` when it holds a notification; `holding` between the goroutine's
-- receive and its send; `ready` when `ch` holds an update for the reader, `ended` when it is closed.
pub record Listener : Type 0 where
  pub registered : Bool
  pub closed : Bool
  pub pending : Bool
  pub holding : Bool
  pub ready : Bool
  pub ended : Bool

-- A nil `idleClients` acts as an empty one: it is ranged over, and made before it is written.
pub record ImapMailbox : Type 0 where
  pub name : Text
  pub username : Text
  pub listeners : List Listener

abbrev pub new_listener : Listener
new_listener = record {
  registered = true;
  closed = false;
  pending = false;
  holding = false;
  ready = false;
  ended = false;
}

unfoldable pub listen_updates : ImapMailbox → ImapMailbox
listen_updates m = record m { listeners = m.listeners ++ new_listener ∷ [] }

-- A second close of a channel panics.
unfoldable pub stop_one : Listener → Outcome Listener
stop_one l =
    if l.registered
    then (if l.closed then panic else ok (record l { registered = false; closed = true }))
    else ok l

-- A send on a closed channel panics; on a full one the default case is taken.
unfoldable pub notify_one : Listener → Outcome Listener
notify_one l =
    if l.registered then (if l.closed then panic else ok (record l { pending = true })) else ok l

-- The range over the clients.
unfoldable pub each : (Listener → Outcome Listener) → List Listener → Outcome (List Listener)
each f [] = ok []
each f (l ∷ ls) = do k ← f l; ks ← each f ls; ok (k ∷ ks)

-- Every client is closed, whichever channel the caller gave.
unfoldable pub stop_listen_updates : ImapMailbox → Outcome ImapMailbox
unfolding each stop_one
stop_listen_updates m = do ls ← each stop_one m.listeners; ok (record m { listeners = ls })

unfoldable pub notify_update : ImapMailbox → Outcome ImapMailbox
unfolding each notify_one
notify_update m = do ls ← each notify_one m.listeners; ok (record m { listeners = ls })

-- The next step of the goroutine, if it is neither over nor blocked.
unfoldable pub turn : Listener → Option Listener
turn l =
    if l.ended
    then none
    else if l.holding
    then (if l.ready then none else some (record l { holding = false; ready = true }))
    else if l.pending
    then some (record l { pending = false; holding = true })
    else if l.closed
    then some (record l { ended = true })
    else none

-- The reader takes an update.
unfoldable pub read_update : Listener → Option Listener
read_update l = if l.ready then some (record l { ready = false }) else none
