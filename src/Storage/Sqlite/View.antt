-- ===== src/Storage/Sqlite/View.antt =====
-- `SqliteJsonStore` of crates/oan-storage/src/lib.rs as what it promises: a table of values by
-- namespace and key, whatever the rows are and whatever their order is.
use mathlib.Core.Path.{fun_ext}
use open_agenet.Base.{
  ℕ, String, ◌≡◌, refl, ap, ◌&&◌, Bool, true, false, Option, none, some, List, [], ◌∷◌, arith, ◌==◌,
  eq_iff, find, retain, if◌then◌else◌, Bool-cases, inl, inr,
}
use open_agenet.Storage.Sqlite.{
  Row, has_key, upsert_json, read_json, delete_json, delete_namespace, found_value,
}
use open_agenet.Storage.Sqlite.Rows.{read_json-upsert_json}

abbrev pub Table : Type 0 → Type 0
Table A = String → String → Option A

module _ {A : Type 0} where
  -- The table that the rows stand for.
  abbrev pub view : List (Row A) → Table A
  view rows ns key = read_json ns key rows

  abbrev pub put : String → String → A → Table A → Table A
  put ns key value table ns' key' = if ns == ns' && key == key' then some value else table ns' key'

  abbrev pub remove : String → String → Table A → Table A
  remove ns key table ns' key' = if ns == ns' && key == key' then none else table ns' key'

  abbrev pub clear : String → Table A → Table A
  clear ns table ns' key' = if ns == ns' then none else table ns' key'

  -- What is looked for is found as before where all of it is kept, and not at all where none is.
  find-retain_kept :
      (p q : Row A → Bool) (rows : List (Row A))
      → ((r : Row A) → p r ≡ true → q r ≡ true)
      → find p (retain q rows) ≡ find p rows
  find-retain_kept p q [] h = refl
  find-retain_kept p q (r ∷ rows) h =
      let rest = find-retain_kept p q rows h in ground (arith, rest, h r)

  find-retain_dropped :
      (p q : Row A → Bool) (rows : List (Row A))
      → ((r : Row A) → p r ≡ true → q r ≡ false)
      → find p (retain q rows) ≡ none
  find-retain_dropped p q [] h = refl
  find-retain_dropped p q (r ∷ rows) h =
      let rest = find-retain_dropped p q rows h in ground (arith, rest, h r)

  view-delete_json :
      (ns key ns' key' : String) (rows : List (Row A))
      → view (delete_json ns key rows) ns' key' ≡ remove ns key (view rows) ns' key'
  unfolding read_json delete_json
  view-delete_json ns key ns' key' rows = elim (Bool-cases (ns == ns' && key == key')) [
    | inl e ↦ rw e (
        ap found_value (
          find-retain_dropped (has_key ns' key') _ rows λ r h. ground (
            arith,
            e,
            eq_iff ns ns',
            eq_iff key key',
            eq_iff r.namespace ns,
            eq_iff r.namespace ns',
            eq_iff r.record_key key,
            eq_iff r.record_key key',
          )))
    | inr e ↦ rw e (
        ap found_value (
          find-retain_kept (has_key ns' key') _ rows λ r h. ground (
            arith,
            e,
            eq_iff ns ns',
            eq_iff key key',
            eq_iff r.namespace ns,
            eq_iff r.namespace ns',
            eq_iff r.record_key key,
            eq_iff r.record_key key',
          )))
  ]

  view-delete_namespace :
      (ns ns' key' : String) (rows : List (Row A))
      → view (delete_namespace ns rows) ns' key' ≡ clear ns (view rows) ns' key'
  unfolding read_json delete_namespace
  view-delete_namespace ns ns' key' rows = elim (Bool-cases (ns == ns')) [
    | inl e ↦ rw e (
        ap found_value (
          find-retain_dropped (has_key ns' key') _ rows
            λ r h. ground (arith, e, eq_iff ns ns', eq_iff r.namespace ns, eq_iff r.namespace ns')))
    | inr e ↦ rw e (
        ap found_value (
          find-retain_kept (has_key ns' key') _ rows
            λ r h. ground (arith, e, eq_iff ns ns', eq_iff r.namespace ns, eq_iff r.namespace ns')))
  ]

  -- On the table that the rows stand for, `upsert_json` puts a value, `delete_json` removes one, and
  -- `delete_namespace` clears a namespace, as equations between tables.
  pub view-Refines :
      (now : ℕ) (ns key : String) (value : A) (rows : List (Row A))
      → (view (upsert_json now ns key value rows) ≡ put ns key value (view rows))
        × (view (delete_json ns key rows) ≡ remove ns key (view rows))
        × (view (delete_namespace ns rows) ≡ clear ns (view rows))
  view-Refines now ns key value rows = (
    fun_ext λ ns'. fun_ext λ key'. read_json-upsert_json now ns key ns' key' value rows,
    fun_ext λ ns'. fun_ext λ key'. view-delete_json ns key ns' key' rows,
    fun_ext λ ns'. fun_ext λ key'. view-delete_namespace ns ns' key' rows,
  )
