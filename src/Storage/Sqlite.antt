-- ===== src/Storage/Sqlite.antt =====
-- `SqliteJsonStore` of crates/oan-storage/src/lib.rs: the statements on the table `json_records`.
-- A row's JSON text is the value that is read from it; the clock gives `CURRENT_TIMESTAMP`.
pub mod Rows
pub mod View
pub mod Namespace
use text.Mathlib.Text.{is_lt}
use Prim.Native.String.{compare}
use open_agenet.Base.{
  ℕ, ◌+◌, String, Bool, true, false, not, ◌&&◌, ◌||◌, Option, none, some, List, [], ◌∷◌, ◌==◌, ltb,
  eqb, map, length, any, retain, find, if◌then◌else◌,
}

pub record Row {ℓ} (A : Type ℓ) : Type ℓ where
  pub namespace : String
  pub record_key : String
  pub value : A
  pub updated_at : ℕ

module _ {ℓ} {A : Type ℓ} where
  -- `WHERE namespace = ? AND record_key = ?`.
  abbrev pub has_key : String → String → Row A → Bool
  has_key namespace key row = row.namespace == namespace && row.record_key == key

  abbrev pub has_namespace : String → Row A → Bool
  has_namespace namespace row = row.namespace == namespace

  overwrite : String → String → A → ℕ → List (Row A) → List (Row A)
  overwrite namespace key value now [] = []
  overwrite namespace key value now (row ∷ rows) =
      (if has_key namespace key row then record row { value = value; updated_at = now } else row)
      ∷ overwrite namespace key value now rows

  append_row : List (Row A) → Row A → List (Row A)
  append_row [] row = row ∷ []
  append_row (r ∷ rows) row = r ∷ append_row rows row

  -- `INSERT .. ON CONFLICT(namespace, record_key) DO UPDATE ..`.
  unfoldable pub upsert_json : ℕ → String → String → A → List (Row A) → List (Row A)
  unfolding overwrite append_row
  upsert_json now namespace key value rows =
      if any (has_key namespace key) rows
      then overwrite namespace key value now rows
      else append_row rows
          (record { namespace = namespace; record_key = key; value = value; updated_at = now })

  -- `ORDER BY updated_at, record_key`.
  abbrev pub comes_first : Row A → Row A → Bool
  comes_first r s =
      ltb r.updated_at s.updated_at
      || (eqb r.updated_at s.updated_at && is_lt (compare r.record_key s.record_key))

  insert_row : Row A → List (Row A) → List (Row A)
  insert_row r [] = r ∷ []
  insert_row r (s ∷ rows) =
      let rest = insert_row r rows in if comes_first s r then s ∷ rest else r ∷ s ∷ rows

  order_rows : List (Row A) → List (Row A)
  order_rows [] = []
  order_rows (r ∷ rows) = insert_row r (order_rows rows)

  unfoldable pub read_namespace : String → List (Row A) → List A
  unfolding order_rows insert_row
  read_namespace namespace rows =
      map (λ row. row.value) (order_rows (retain (has_namespace namespace) rows))

  -- `row.map(..)` of an optional row.
  abbrev pub found_value : Option (Row A) → Option A
  found_value none = none
  found_value (some row) = some row.value

  unfoldable pub read_json : String → String → List (Row A) → Option A
  read_json namespace key rows = found_value (find (has_key namespace key) rows)

  unfoldable pub delete_json : String → String → List (Row A) → List (Row A)
  delete_json namespace key rows = retain (λ row. not (has_key namespace key row)) rows

  unfoldable pub count_namespace : String → List (Row A) → ℕ
  count_namespace namespace rows = length (retain (has_namespace namespace) rows)

  unfoldable pub delete_namespace : String → List (Row A) → List (Row A)
  delete_namespace namespace rows = retain (λ row. not (has_namespace namespace row)) rows
