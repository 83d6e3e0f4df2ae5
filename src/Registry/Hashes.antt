-- ===== src/Registry/Hashes.antt =====
-- What the authorities of pec-server/internal/storage/database.go carry: the hashes of their rows.
use mathlib.Core.List.{Memᴰ}
use mathlib.Core.List.Memᴰ
use go_pec.Base.{
  Text, ◌>>=◌, >>=-eq-ok, ok-inj, Outcome, ok, err, panic, ℕ, suc, ◌≡◌, sym, ap, ◌∙◌, Option, none,
  some, List, [], ◌∷◌, ◌++◌, map, append_assoc, append-nil, arith,
}
use go_pec.Registry.Defs.{
  select_by_hash, select_hashes, scan_hashes, of_row, scanned, query, scan_row, query_row,
  load_hashes, get_by_cert_hash, load_authority, load_authorities, list_authorities, AuthorityRow,
  HashRow, Tables, PecAuthority, Statement, by_hash, all_authorities, hashes_of, Driver,
}
use go_pec.Registry.Selections.{hashes_for, select_hashes-eq-hashes_for, select_by_hash-mem}

abbrev with_hashes : PecAuthority → List Text → PecAuthority
with_hashes auth hashes = record auth {
  provider_certificate_hashes = auth.provider_certificate_hashes ++ hashes;
}

-- An authority with the hashes that the table has for it.
abbrev pub whole : List HashRow → AuthorityRow → PecAuthority
whole table row = record {
  name = row.row_name;
  smtp_addr = row.row_smtp_addr;
  notification_address = row.row_notification_address;
  provider_certificate_hashes = hashes_for row.id table;
}

module _ (db : Driver) where
  open db use {execute, scan, cut_after, choose, choose-mem}

  -- No failure ends the rows of an answer early.
  abbrev pub IsWhole : Type 0
  IsWhole = (q : Statement) → cut_after q ≡ none

  query-whole {ℓ} :
      {A : Type ℓ} {answer : List (Outcome A)} (q : Statement) (selected : List A)
      → IsWhole
      → query db q selected ≡ ok answer
      → scanned db q 0 selected ≡ answer
  unfolding query
  query-whole q selected is_whole e =
      let (_, _, done) = >>=-eq-ok (execute q) _ e in ok-inj (rw (is_whole q) at done)

  scan_row-eq-ok :
      (q : Statement) (o : Option AuthorityRow) (row : AuthorityRow)
      → scan_row db q o ≡ ok row
      → o ≡ some row
  unfolding scan_row
  scan_row-eq-ok q none row e = cc
  scan_row-eq-ok q (some other) row e =
      let (_, _, same) = >>=-eq-ok (scan q 0) _ e in ap some (ok-inj same)

  query_row-mem :
      (q : Statement) (selected : List AuthorityRow) (row : AuthorityRow)
      → query_row db q selected ≡ ok row
      → Memᴰ row selected
  unfolding query_row
  query_row-mem q selected row e =
      let (_, _, picked) = >>=-eq-ok (execute q) _ e in
      choose-mem selected row (scan_row-eq-ok q (choose selected) row picked)

  scan_hashes-first :
      (m : Outcome (Unit {0})) (hash : Text) (rows : List (Outcome Text)) (auth done : PecAuthority)
      → scan_hashes ((m >>= λ _. ok hash) ∷ rows) auth ≡ ok done
      → scan_hashes rows (with_hashes auth (hash ∷ [])) ≡ ok done
  unfolding scan_hashes
  scan_hashes-first (ok _) hash rows auth done e = e
  scan_hashes-first (err _) hash rows auth done e = cc
  scan_hashes-first panic hash rows auth done e = cc

  scan_hashes-scanned :
      (q : Statement) (n : ℕ) (hashes : List Text) (auth done : PecAuthority)
      → scan_hashes (scanned db q n hashes) auth ≡ ok done
      → done ≡ with_hashes auth hashes
  unfolding scan_hashes scanned
  scan_hashes-scanned q n [] auth done e =
      rw (append-nil auth.provider_certificate_hashes) (ground arith)
  scan_hashes-scanned q n (hash ∷ hashes) auth done e =
      let rest = scan_hashes-first (scan q n) hash (scanned db q (suc n) hashes) auth done e in
      rw (← append_assoc auth.provider_certificate_hashes (hash ∷ []) hashes)
        (scan_hashes-scanned q (suc n) hashes (with_hashes auth (hash ∷ [])) done rest)

  module _ (tables : Tables) (is_whole : IsWhole) where
    open tables use {pec_authorities, pec_cert_hashes}

    load_hashes-whole :
        (row : AuthorityRow) (auth : PecAuthority)
        → load_hashes db tables row ≡ ok auth
        → auth ≡ whole pec_cert_hashes row
    unfolding load_hashes
    load_hashes-whole row auth e =
        let (rows, answered, done) = >>=-eq-ok (query db (hashes_of row.id) _) _ e in
        let all = query-whole (hashes_of row.id) _ is_whole answered in
        rw (← select_hashes-eq-hashes_for row.id pec_cert_hashes) (
          scan_hashes-scanned (hashes_of row.id) 0 (select_hashes row.id pec_cert_hashes)
            (of_row row) auth (rw all done))

    load_authority-whole :
        (m : Outcome (Unit {0})) (row : AuthorityRow) (auth : PecAuthority)
        → load_authority db tables (m >>= λ _. ok row) ≡ ok auth
        → auth ≡ whole pec_cert_hashes row
    unfolding load_authority
    load_authority-whole (ok _) row auth e = load_hashes-whole row auth e
    load_authority-whole (err _) row auth e = cc
    load_authority-whole panic row auth e = cc

    load_authorities-whole :
        (q : Statement) (n : ℕ) (rows : List AuthorityRow) (before done : List PecAuthority)
        → load_authorities db tables (scanned db q n rows) before ≡ ok done
        → done ≡ before ++ map (whole pec_cert_hashes) rows
    unfolding load_authorities scanned
    load_authorities-whole q n [] before done e = rw (append-nil before) (sym (ok-inj e))
    load_authorities-whole q n (row ∷ rows) before done e =
        let (auth, got, rest) =
          >>=-eq-ok (load_authority db tables (scan q n >>= λ _. ok row))
            (λ auth. load_authorities db tables (scanned db q (suc n) rows) (before ++ auth ∷ []))
            e in
        load_authorities-whole q (suc n) rows (before ++ auth ∷ []) done rest
        ∙ append_assoc before (auth ∷ []) (map (whole pec_cert_hashes) rows)
        ∙ ap (λ a. before ++ a ∷ map (whole pec_cert_hashes) rows)
            (load_authority-whole (scan q n) row auth got)

    list_authorities-whole :
        (done : List PecAuthority)
        → list_authorities db tables ≡ ok done
        → done ≡ map (whole pec_cert_hashes) pec_authorities
    unfolding list_authorities
    list_authorities-whole done e =
        let (rows, answered, loaded) = >>=-eq-ok (query db all_authorities pec_authorities) _ e in
        load_authorities-whole all_authorities 0 pec_authorities [] done
          (rw (query-whole all_authorities pec_authorities is_whole answered) loaded)

    get_by_cert_hash-whole :
        (hash : Text) (auth : PecAuthority)
        → get_by_cert_hash db tables hash ≡ ok auth
        → (row : AuthorityRow) × (auth ≡ whole pec_cert_hashes row)
          × Memᴰ row (select_by_hash hash pec_authorities pec_cert_hashes)
    unfolding get_by_cert_hash
    get_by_cert_hash-whole hash auth e =
        let (row, found, loaded) = >>=-eq-ok (query_row db (by_hash hash) _) _ e in
        (row, load_hashes-whole row auth loaded, query_row-mem (by_hash hash) _ row found)

-- If no failure ends the rows of an answer early, in either call, then an authority that
-- GetByCertHash finds for a hash has it among its hashes, a ListAuthorities that succeeds gives each
-- row of the table of authorities with all hashes that the other table has for its id, and it lists
-- the authority that was found.
pub get_by_cert_hash-listed :
    (first second : Driver) (tables : Tables) (hash : Text) (auth : PecAuthority)
    (authorities : List PecAuthority)
    → IsWhole first
    → IsWhole second
    → get_by_cert_hash first tables hash ≡ ok auth
    → list_authorities second tables ≡ ok authorities
    → Memᴰ hash auth.provider_certificate_hashes
      × (authorities ≡ map (whole tables.pec_cert_hashes) tables.pec_authorities)
      × Memᴰ auth authorities
get_by_cert_hash-listed first second tables hash auth authorities uncut uncut_too found listed =
    let (row, is, joined) = get_by_cert_hash-whole first tables uncut hash auth found in
    let all = list_authorities-whole second tables uncut_too authorities listed in
    let (there, has) =
      select_by_hash-mem hash tables.pec_authorities tables.pec_cert_hashes joined in
    (
      rw is (rw (select_hashes-eq-hashes_for row.id tables.pec_cert_hashes) at has),
      all,
      rw (is, all) (Memᴰ.map (whole tables.pec_cert_hashes) there),
    )
