-- ===== src/Registry/Selections.antt =====
-- What the SQL queries of pec-server/internal/storage/database.go select.
use mathlib.Core.List.{filter, Memᴰ}
use mathlib.Core.List.Memᴰ
use native.Mathlib.Decide.{ℕ_discrete}
use go_pec.Base.{
  ◌==◌, Bool-cases, Text, text_eq, ℕ, ◌≡◌, refl, inl, inr, true, ◌&&◌, List, [], ◌∷◌, map, arith,
}
use go_pec.Base.TextLaws.{text_eq_iff}
use go_pec.Registry.Defs.{join_rows, select_by_hash, select_hashes, AuthorityRow, HashRow}

-- The hashes that the table has for an ID, in order.
abbrev pub hashes_for : ℕ → List HashRow → List Text
hashes_for id table =
    map (λ (c : HashRow). c.sha1_hash) (filter (λ c. ℕ_discrete c.authority_id id) table)

pub select_hashes-eq-hashes_for :
    (id : ℕ) (cs : List HashRow) → select_hashes id cs ≡ hashes_for id cs
unfolding select_hashes
select_hashes-eq-hashes_for id [] = refl
select_hashes-eq-hashes_for id (c ∷ cs) = ground (arith, select_hashes-eq-hashes_for id cs)

select_hashes-here :
    {hash : Text} (id : ℕ) (c : HashRow) (cs : List HashRow)
    → (c.authority_id == id) ≡ true
    → hash ≡ c.sha1_hash
    → Memᴰ hash (select_hashes id (c ∷ cs))
unfolding select_hashes
select_hashes-here id c cs same is = rw same (Memᴰ.head is)

select_hashes-more :
    {hash : Text} (id : ℕ) (c : HashRow) (cs : List HashRow)
    → Memᴰ hash (select_hashes id cs)
    → Memᴰ hash (select_hashes id (c ∷ cs))
unfolding select_hashes
select_hashes-more id c cs m = elim (Bool-cases (c.authority_id == id)) [
  | inl same ↦ rw same (Memᴰ.tail m)
  | inr other ↦ rw other m
]

-- The condition of the join.
joined-parts :
    (hash : Text) (a : AuthorityRow) (c : HashRow)
    → (a.id == c.authority_id && text_eq c.sha1_hash hash) ≡ true
    → ((c.authority_id == a.id) ≡ true) × (hash ≡ c.sha1_hash)
joined-parts hash a c e = ground (arith, text_eq_iff c.sha1_hash hash)

join_rows-mem :
    {row : AuthorityRow} (hash : Text) (a : AuthorityRow) (cs : List HashRow)
    → Memᴰ row (join_rows hash a cs)
    → (row ≡ a) × Memᴰ hash (select_hashes a.id cs)
unfolding join_rows select_hashes
join_rows-mem hash a [] m = absurd (Memᴰ.not-nil m)
join_rows-mem {row} hash a (c ∷ cs) m =
    elim (Bool-cases (a.id == c.authority_id && text_eq c.sha1_hash hash)) [
      | inl joined ↦
          let (same_id, is) = joined-parts hash a c joined in
          elim (Memᴰ.cases_cons (rw joined at m)) [
            | inl same ↦ (same, select_hashes-here a.id c cs same_id is)
            | inr later ↦
                let (same, found) = join_rows-mem hash a cs later in
                (same, select_hashes-more a.id c cs found)
          ]
      | inr skipped ↦
          let (same, found) = join_rows-mem hash a cs (rw skipped at m) in
          (same, select_hashes-more a.id c cs found)
    ]

pub select_by_hash-mem :
    {row : AuthorityRow} (hash : Text) (rows : List AuthorityRow) (cs : List HashRow)
    → Memᴰ row (select_by_hash hash rows cs)
    → Memᴰ row rows × Memᴰ hash (select_hashes row.id cs)
unfolding select_by_hash
select_by_hash-mem hash [] cs m = absurd (Memᴰ.not-nil m)
select_by_hash-mem {row} hash (a ∷ rows) cs m = elim (Memᴰ.append_cases (join_rows hash a cs) m) [
  | inl here ↦ let (same, found) = join_rows-mem hash a cs here in (Memᴰ.head same, rw same found)
  | inr later ↦
      let (there, found) = select_by_hash-mem hash rows cs later in (Memᴰ.tail there, found)
]
