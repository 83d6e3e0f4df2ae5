-- ===== src/Imap/Server.antt =====
-- The mailbox objects of all users next to the store: IMAPUser.ListMailboxes and GetMailbox, and
-- mail that starts the callback of its user's mailbox.
use go_pec.Base.{
  if◌then◌else◌, length, Text, utf8, text_eq, ◌>>=◌, no_such_mailbox, Outcome, ok, err, ℕ, zero,
  suc, Option, none, some, List, [], ◌∷◌, ◌++◌,
}
use go_pec.Storage.{register_notifier, add_message, Message, InMemoryStore}
use go_pec.Imap.Login.{ImapUser}
use go_pec.Imap.Updates.{notify_update, ImapMailbox}

-- A mailbox object is known by its position.
pub record ImapState : Type 0 where
  pub store : InMemoryStore
  pub mailboxes : List ImapMailbox

abbrev pub inbox : Text
inbox = utf8 "INBOX"

abbrev pub new_mailbox : Text → Text → ImapMailbox
new_mailbox name username = record { name = name; username = username; listeners = [] }

-- The mailbox object that is made here is registered nowhere.
unfoldable pub list_mailboxes : ImapUser → List ImapMailbox
list_mailboxes u = new_mailbox inbox u.username ∷ []

unfoldable pub get_mailbox : ImapUser → Text → ImapState → ImapState × Outcome ℕ
get_mailbox u name w =
    if text_eq name inbox
    then (
      record {
        store = register_notifier u.username (length w.mailboxes) w.store;
        mailboxes = w.mailboxes ++ new_mailbox name u.username ∷ [];
      },
      ok (length w.mailboxes),
    )
    else (w, err no_such_mailbox)

-- The callback of the mailbox object at a position.
unfoldable pub notify_at : ℕ → List ImapMailbox → Outcome (List ImapMailbox)
unfolding notify_update
notify_at i [] = ok []
notify_at zero (m ∷ ms) = do k ← notify_update m; ok (k ∷ ms)
notify_at (suc i) (m ∷ ms) = do ks ← notify_at i ms; ok (m ∷ ks)

-- Once the store has the mail, the callback that it found is run.
unfoldable pub wake : InMemoryStore → Option ℕ → ImapState → Outcome ImapState
unfolding notify_at
wake s none w = ok (record w { store = s })
wake s (some i) w = do ms ← notify_at i w.mailboxes; ok (record { store = s; mailboxes = ms })

-- AddMessage, followed by the callback that it starts; the source starts it with `go`, so it may run
-- later than here.
unfoldable pub deliver : Text → Message → ImapState → Outcome ImapState
unfolding wake
deliver to msg w = let (s, found) = add_message to msg w.store in wake s found w
