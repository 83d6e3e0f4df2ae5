-- ===== src/Delivery/ReadableTests.antt =====
-- A message for one recipient, delivered and read.
use go_pec.Base.{
  Text, utf8, text_eq, index, lookup, insert, zero_time, ◌≡◌, refl, true, some, [], ◌∷◌, map, arith,
}
use go_pec.Mail.{Entity}
use go_pec.Storage.{new_in_memory_store, local_part, open_mailbox}
use go_pec.Storage.Uids.{assigned_uid, start}
use go_pec.Samples.{Fields, field_value, mail_library, part_writer, sample_imap}
use go_pec.Imap.{list_messages}
use go_pec.Imap.Keys.{only}
use go_pec.Delivery.Receipts.{Surroundings}
use go_pec.Delivery.Session.{process_message, PuntoConsegnaSession}
use go_pec.Delivery.Readable.{view, process_message-readable}

abbrev plain : Fields
plain = (utf8 "From", utf8 "ada@pec.it") ∷ (utf8 "Subject", utf8 "ciao") ∷ []

abbrev env : Surroundings
env = record { now = λ i. zero_time; random = λ i. b'r' ∷ []; describe = λ e. utf8 "error" }

abbrev greeting : Entity Fields
greeting = record { header = plain; body = utf8 "hello" }

abbrev bob : Text
bob = utf8 "bob@pec.it"

abbrev session : PuntoConsegnaSession
session = record {
  store = new_in_memory_store;
  domain = utf8 "pec.it";
  from = utf8 "ada@pec.it";
  to = bob ∷ [];
}

first_uid : assigned_uid bob new_in_memory_store ≡ 1
unfolding open_mailbox new_in_memory_store local_part index lookup insert text_eq utf8
first_uid = refl

process_message-readable_example :
    map view
      (list_messages sample_imap
        (local_part bob)
        true
        (only (assigned_uid bob new_in_memory_store))
        []
        (process_message (mail_library plain) part_writer env greeting bob session).0.store).0
    ≡ (
      assigned_uid bob new_in_memory_store,
      some (record {
        date = zero_time;
        subject = field_value plain (utf8 "Subject");
        from = field_value plain (utf8 "From") ∷ [];
        to = field_value plain (utf8 "To") ∷ [];
      }),
    )
      ∷ []
process_message-readable_example =
    process_message-readable (mail_library plain) part_writer sample_imap env greeting bob session
      [] start (rw first_uid (omega arith)) (rw first_uid (omega arith))
