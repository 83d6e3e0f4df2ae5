-- ===== src/Registry/Tests.antt =====
-- The registry at tables with two providers and three hashes.
use native.Mathlib.Decide.{ℕ_discrete}
use mathlib.Core.List.{Memᴰ}
use mathlib.Core.List.Memᴰ.{head}
use go_pec.Base.{
  Text, utf8, text_eq, has_prefix, has_suffix, ok, ◌≡◌, refl, Option, none, some, List, [], ◌∷◌,
  map, arith,
}
use go_pec.Registry.Defs.{
  select_by_domain, join_rows, select_by_hash, select_hashes, scan_hashes, of_row, scanned, query,
  scan_row, query_row, load_hashes, get_by_domain, get_by_cert_hash, load_authority,
  load_authorities, list_authorities, AuthorityRow, Tables, Driver,
}
use go_pec.Registry.Hashes.{whole, get_by_cert_hash-listed}

abbrev wanted : Text
wanted = utf8 "AA"

abbrev provider : AuthorityRow
provider = record {
  id = 1;
  row_name = utf8 "pec.it";
  row_smtp_addr = utf8 "smtp.pec.it:25";
  row_notification_address = utf8 "ricevute@pec.it";
}

abbrev other_provider : AuthorityRow
other_provider = record {
  id = 2;
  row_name = utf8 "posta.it";
  row_smtp_addr = utf8 "smtp.posta.it:25";
  row_notification_address = utf8 "ricevute@posta.it";
}

abbrev sample_tables : Tables
sample_tables = record {
  pec_authorities = other_provider ∷ provider ∷ [];
  pec_cert_hashes =
      record { authority_id = 1; sha1_hash = wanted }
      ∷ record { authority_id = 2; sha1_hash = utf8 "CC" }
      ∷ record { authority_id = 1; sha1_hash = utf8 "BB" }
      ∷ [];
}

abbrev first_row : List AuthorityRow → Option AuthorityRow
first_row [] = none
first_row (row ∷ _) = some row

first_row-mem :
    (rows : List AuthorityRow) (row : AuthorityRow) → first_row rows ≡ some row → Memᴰ row rows
first_row-mem [] row e = cc
first_row-mem (a ∷ rows) row e = head (ground (arith, e))

-- A driver that never fails.
abbrev sound_driver : Driver
sound_driver = record {
  execute = λ q. ok tt;
  scan = λ q n. ok tt;
  cut_after = λ q. none;
  choose = first_row;
  choose-mem = first_row-mem;
  like_suffix = λ address domain. has_suffix address domain;
}

first_found :
    get_by_cert_hash sound_driver sample_tables wanted
    ≡ ok (whole sample_tables.pec_cert_hashes provider)
unfolding get_by_cert_hash load_hashes query query_row scan_row scanned scan_hashes select_by_hash
    join_rows select_hashes utf8 text_eq ℕ_discrete
first_found = refl

all_listed :
    list_authorities sound_driver sample_tables
    ≡ ok (
        whole sample_tables.pec_cert_hashes other_provider
        ∷ whole sample_tables.pec_cert_hashes provider
        ∷ [])
unfolding list_authorities load_authorities load_authority load_hashes query scanned scan_hashes
    select_hashes utf8 ℕ_discrete
all_listed = refl

get_by_cert_hash-listed_example :
    Memᴰ wanted (whole sample_tables.pec_cert_hashes provider).provider_certificate_hashes
    × (whole sample_tables.pec_cert_hashes other_provider
          ∷ whole sample_tables.pec_cert_hashes provider
          ∷ []
        ≡ map (whole sample_tables.pec_cert_hashes) sample_tables.pec_authorities)
    × Memᴰ (whole sample_tables.pec_cert_hashes provider) (
        whole sample_tables.pec_cert_hashes other_provider
        ∷ whole sample_tables.pec_cert_hashes provider
        ∷ [])
get_by_cert_hash-listed_example =
    get_by_cert_hash-listed sound_driver sound_driver sample_tables wanted
      (whole sample_tables.pec_cert_hashes provider)
      (whole sample_tables.pec_cert_hashes other_provider
        ∷ whole sample_tables.pec_cert_hashes provider
        ∷ [])
      (λ q. refl) (λ q. refl) first_found all_listed

-- Rows that a failure ended before the first hash: the authority is returned without hashes.
hashes-lost :
    get_by_domain (record sound_driver { cut_after = λ q. some 0 }) sample_tables (utf8 "pec.it")
    ≡ ok (of_row provider)
unfolding get_by_domain load_hashes query query_row scan_row scanned scan_hashes select_by_domain
    select_hashes has_suffix has_prefix utf8 text_eq
hashes-lost = refl
