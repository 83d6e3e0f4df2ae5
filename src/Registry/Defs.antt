-- ===== src/Registry/Defs.antt =====
-- The registry: its tables, the meaning of the SQL text of its queries, and the loops over the rows.
-- The driver is a parameter: whether a statement runs, whether a row can be scanned, and after how
-- many rows a failure ends them, for which the source never asks.
use mathlib.Core.List.{Memᴰ}
use go_pec.Base.{
  ◌==◌, if◌then◌else◌, take, Text, utf8, text_eq, ◌>>=◌, external, Outcome, ok, err, panic, ℕ, suc,
  ◌≡◌, Bool, ◌&&◌, ◌||◌, Option, none, some, List, [], ◌∷◌, ◌++◌,
}

-- The columns of a row of pec_authorities.
pub record AuthorityRow : Type 0 where
  pub id : ℕ
  pub row_name : Text
  pub row_smtp_addr : Text
  pub row_notification_address : Text

-- The columns of a row of pec_cert_hashes.
pub record HashRow : Type 0 where
  pub authority_id : ℕ
  pub sha1_hash : Text

-- The tables, which stay as they are while they are read.
pub record Tables : Type 0 where
  pub pec_authorities : List AuthorityRow
  pub pec_cert_hashes : List HashRow

pub record PecAuthority : Type 0 where
  pub name : Text
  pub smtp_addr : Text
  pub notification_address : Text
  pub provider_certificate_hashes : List Text

-- The statements of the source with their arguments.
pub data Statement : Type 0 where
  by_domain by_hash : Text → Statement
  all_authorities : Statement
  hashes_of : ℕ → Statement

-- package database/sql and the database behind it. `scan` is told the position of the row, `choose`
-- is LIMIT 1 without an order, and `like_suffix` is LIKE '%' || $1.
pub record Driver : Type 0 where
  pub execute : Statement → Outcome (Unit {0})
  pub scan : Statement → ℕ → Outcome (Unit {0})
  pub cut_after : Statement → Option ℕ
  pub choose : List AuthorityRow → Option AuthorityRow
  pub choose-mem :
      (rows : List AuthorityRow) (row : AuthorityRow) → choose rows ≡ some row → Memᴰ row rows
  pub like_suffix : Text → Text → Bool

-- WHERE name = $1 OR notification_address LIKE '%' || $1
unfoldable pub select_by_domain :
    (Text → Text → Bool) → Text → List AuthorityRow → List AuthorityRow
select_by_domain like domain [] = []
select_by_domain like domain (a ∷ rows) =
    let rest = select_by_domain like domain rows in
    if text_eq a.row_name domain || like a.row_notification_address domain then a ∷ rest else rest

-- The rows of one authority in the join: ON a.id = c.authority_id WHERE c.sha1_hash = $1
unfoldable pub join_rows : Text → AuthorityRow → List HashRow → List AuthorityRow
join_rows hash a [] = []
join_rows hash a (c ∷ cs) =
    let rest = join_rows hash a cs in
    if a.id == c.authority_id && text_eq c.sha1_hash hash then a ∷ rest else rest

-- FROM pec_authorities a JOIN pec_cert_hashes c
unfoldable pub select_by_hash : Text → List AuthorityRow → List HashRow → List AuthorityRow
unfolding join_rows
select_by_hash hash [] cs = []
select_by_hash hash (a ∷ rows) cs = join_rows hash a cs ++ select_by_hash hash rows cs

-- SELECT sha1_hash FROM pec_cert_hashes WHERE authority_id = $1
unfoldable pub select_hashes : ℕ → List HashRow → List Text
select_hashes id [] = []
select_hashes id (c ∷ cs) =
    let rest = select_hashes id cs in if c.authority_id == id then c.sha1_hash ∷ rest else rest

-- The loop over the rows with the hashes of an authority: its first error ends it.
unfoldable pub scan_hashes : List (Outcome Text) → PecAuthority → Outcome PecAuthority
scan_hashes [] auth = ok auth
scan_hashes (ok hash ∷ rows) auth =
    scan_hashes rows
      (record auth { provider_certificate_hashes = auth.provider_certificate_hashes ++ hash ∷ [] })
scan_hashes (err e ∷ rows) auth = err e
scan_hashes (panic ∷ rows) auth = panic

abbrev pub of_row : AuthorityRow → PecAuthority
of_row row = record {
  name = row.row_name;
  smtp_addr = row.row_smtp_addr;
  notification_address = row.row_notification_address;
  provider_certificate_hashes = [];
}

module _ (db : Driver) where
  open db use {execute, scan, cut_after, choose, like_suffix}

  -- What `Scan` gives in each turn of `rows.Next`.
  unfoldable pub scanned {ℓ} : {A : Type ℓ} → Statement → ℕ → List A → List (Outcome A)
  scanned q n [] = []
  scanned q n (a ∷ rows) = (scan q n >>= λ _. ok a) ∷ scanned q (suc n) rows

  -- `Query` with the rows that are selected.
  unfoldable pub query {ℓ} : {A : Type ℓ} → Statement → List A → Outcome (List (Outcome A))
  unfolding scanned
  query q selected = execute q >>= λ _.
      ok (elim (cut_after q) [
        | none ↦ scanned q 0 selected
        | some n ↦ scanned q 0 (take n selected)
      ])

  unfoldable pub scan_row : Statement → Option AuthorityRow → Outcome AuthorityRow
  scan_row q none = err (external (utf8 "sql: no rows in result set"))
  scan_row q (some row) = scan q 0 >>= λ _. ok row

  -- `QueryRow` and its `Scan`, with LIMIT 1.
  unfoldable pub query_row : Statement → List AuthorityRow → Outcome AuthorityRow
  unfolding scan_row
  query_row q selected = execute q >>= λ _. scan_row q (choose selected)

  module _ (tables : Tables) where
    open tables use {pec_authorities, pec_cert_hashes}

    -- The second query of each method, for an authority without hashes.
    unfoldable pub load_hashes : AuthorityRow → Outcome PecAuthority
    unfolding query select_hashes scan_hashes
    load_hashes row = do
      rows ← query (hashes_of row.id) (select_hashes row.id pec_cert_hashes)
      scan_hashes rows (of_row row)

    unfoldable pub get_by_domain : Text → Outcome PecAuthority
    unfolding query_row select_by_domain load_hashes
    get_by_domain domain = do
      row ← query_row (by_domain domain) (select_by_domain like_suffix domain pec_authorities)
      load_hashes row

    unfoldable pub get_by_cert_hash : Text → Outcome PecAuthority
    unfolding query_row select_by_hash load_hashes
    get_by_cert_hash hash = do
      row ← query_row (by_hash hash) (select_by_hash hash pec_authorities pec_cert_hashes)
      load_hashes row

    -- One turn of the loop of `ListAuthorities`.
    unfoldable pub load_authority : Outcome AuthorityRow → Outcome PecAuthority
    unfolding load_hashes
    load_authority scan_result = do row ← scan_result; load_hashes row

    unfoldable pub load_authorities :
        List (Outcome AuthorityRow) → List PecAuthority → Outcome (List PecAuthority)
    unfolding load_authority
    load_authorities [] authorities = ok authorities
    load_authorities (scan_result ∷ rows) authorities = do
      auth ← load_authority scan_result
      load_authorities rows (authorities ++ auth ∷ [])

    unfoldable pub list_authorities : Outcome (List PecAuthority)
    unfolding load_authorities query
    list_authorities = do rows ← query all_authorities pec_authorities; load_authorities rows []
