-- ===== src/Imap/ChannelTests.antt =====
-- The theorems on the update channels of the IMAP backend, at two mailbox objects of one user.
use go_pec.Base.{
  All, Text, utf8, text_eq, index, lookup, insert, ok, panic, ◌≡◌, refl, true, none, some, [], ◌∷◌,
  map,
}
use go_pec.Storage.{new_in_memory_store, register_notifier, local_part, add_message, Message}
use go_pec.Imap.Updates.{
  new_listener, listen_updates, notify_one, stop_listen_updates, notify_update, ImapMailbox,
}
use go_pec.Imap.Server.{inbox, new_mailbox, get_mailbox, deliver, ImapState}
use go_pec.Imap.Listeners.{notified, stopped, Reached-calls, listening, Reached, fresh, after}
use go_pec.Imap.Wakeup.{rounds, IsReady, stop-ended, woken, deliver-wakes}

abbrev ada : Text
ada = utf8 "ada"

abbrev address : Text
address = utf8 "ada@pec.it"

abbrev mail : Message
mail = record {
  seq_num = 0;
  uid = 77;
  size = 3;
  flags = [];
  envelope = none;
  internal_date = none;
  body_structure = none;
}

-- Two mailbox objects of one user; the second has one reader.
abbrev listening_to : ImapMailbox
listening_to = listen_updates (new_mailbox inbox ada)

abbrev opened_twice : ImapState
opened_twice = record {
  store = register_notifier ada 1 (register_notifier ada 0 new_in_memory_store);
  mailboxes = listening_to ∷ listening_to ∷ [];
}

opened_twice-store :
    opened_twice.store
    ≡ (get_mailbox
        (record { username = ada })
        inbox
        (get_mailbox
          (record { username = ada })
          inbox
          (record { store = new_in_memory_store; mailboxes = [] })).0).0.store
unfolding get_mailbox utf8 text_eq
opened_twice-store = refl

listening_to-Reached : Reached listening_to
listening_to-Reached = after (fresh inbox ada) listening

ada-notified : lookup ada opened_twice.store.notifiers ≡ some 1
unfolding register_notifier new_in_memory_store lookup insert text_eq utf8
ada-notified = refl

address-local_part : local_part address ≡ ada
unfolding local_part utf8 index
address-local_part = refl

deliver-wakes_example :
    (deliver address mail opened_twice
      ≡ ok (record {
        store = (add_message address mail opened_twice.store).0;
        mailboxes = listening_to ∷ woken listening_to ∷ [];
      }))
    × All IsReady (woken listening_to).listeners
deliver-wakes_example =
    deliver-wakes ada address mail 1 listening_to opened_twice address-local_part ada-notified refl
      listening_to-Reached

stop-ended_example : All (λ l. (rounds 6 l).ended ≡ true) (map stopped listening_to.listeners)
stop-ended_example = stop-ended listening_to-Reached (Reached-calls listening_to-Reached).1

-- Between the close of a channel and its removal from the map, which NotifyUpdate can see since
-- StopListenUpdates does not take the lock.
half_stopped : notify_one (record new_listener { closed = true }) ≡ panic
unfolding notify_one
half_stopped = refl

Reached-calls_example :
    (notify_update listening_to
      ≡ ok (record listening_to { listeners = map notified listening_to.listeners }))
    × (stop_listen_updates listening_to
        ≡ ok (record listening_to { listeners = map stopped listening_to.listeners }))
Reached-calls_example = Reached-calls listening_to-Reached
