-- ===== src/Storage/Sqlite/Namespace.antt =====
-- What all values of a namespace of `json_records` (crates/oan-storage/src/lib.rs) have in common.
use open_agenet.Base.{
  ℕ, String, ◌≡◌, true, List, [], ◌∷◌, arith, map, retain, any, Bool-cases, inl, inr, All,
}
use open_agenet.Storage.Sqlite.{
  Row, has_key, has_namespace, overwrite, append_row, upsert_json, comes_first, insert_row,
  order_rows, read_namespace, delete_namespace,
}

module _ {A : Type 0} (ns : String) (P : A → Type 0) where
  -- Every value in the namespace has the property.
  abbrev pub HoldsIn : List (Row A) → Type 0
  HoldsIn rows = All (λ row. has_namespace ns row ≡ true → P row.value) rows

  pub HoldsIn-delete_namespace : (rows : List (Row A)) → HoldsIn (delete_namespace ns rows)
  unfolding delete_namespace
  HoldsIn-delete_namespace [] = tt
  HoldsIn-delete_namespace (row ∷ rows) =
      let rest = HoldsIn-delete_namespace rows in
      elim (Bool-cases (has_namespace ns row)) [
        | inl e ↦ rw e rest
        | inr e ↦ rw e (λ h. absurd (ground (arith, e, h)), rest)
      ]

  HoldsIn-overwrite :
      (key : String) (value : A) (now : ℕ) (rows : List (Row A))
      → P value
      → HoldsIn rows
      → HoldsIn (overwrite ns key value now rows)
  unfolding overwrite
  HoldsIn-overwrite key value now [] good h = tt
  HoldsIn-overwrite key value now (row ∷ rows) good h =
      let rest = HoldsIn-overwrite key value now rows good h.1 in
      elim (Bool-cases (has_key ns key row)) [
        | inl e ↦ rw e (λ _. good, rest)
        | inr e ↦ rw e (h.0, rest)
      ]

  HoldsIn-append_row :
      (row : Row A) (rows : List (Row A))
      → P row.value
      → HoldsIn rows
      → HoldsIn (append_row rows row)
  unfolding append_row
  HoldsIn-append_row row [] good h = (λ _. good, tt)
  HoldsIn-append_row row (r ∷ rows) good h = (h.0, HoldsIn-append_row row rows good h.1)

  pub HoldsIn-upsert_json :
      (now : ℕ) (key : String) (value : A) (rows : List (Row A))
      → P value
      → HoldsIn rows
      → HoldsIn (upsert_json now ns key value rows)
  unfolding upsert_json
  HoldsIn-upsert_json now key value rows good h = elim (Bool-cases (any (has_key ns key) rows)) [
    | inl e ↦ rw e (HoldsIn-overwrite key value now rows good h)
    | inr e ↦ rw e (HoldsIn-append_row _ rows good h)
  ]

  abbrev Good : List (Row A) → Type 0
  Good rows = All (λ row. P row.value) rows

  Good-retain : (rows : List (Row A)) → HoldsIn rows → Good (retain (has_namespace ns) rows)
  Good-retain [] h = tt
  Good-retain (row ∷ rows) h = elim (Bool-cases (has_namespace ns row)) [
    | inl e ↦ rw e (h.0 e, Good-retain rows h.1)
    | inr e ↦ rw e (Good-retain rows h.1)
  ]

  Good-insert_row :
      (row : Row A) (rows : List (Row A)) → P row.value → Good rows → Good (insert_row row rows)
  unfolding insert_row
  Good-insert_row row [] good h = (good, tt)
  Good-insert_row row (r ∷ rows) good h = elim (Bool-cases (comes_first r row)) [
    | inl e ↦ rw e (h.0, Good-insert_row row rows good h.1)
    | inr e ↦ rw e (good, h)
  ]

  Good-order_rows : (rows : List (Row A)) → Good rows → Good (order_rows rows)
  unfolding order_rows
  Good-order_rows [] h = tt
  Good-order_rows (row ∷ rows) h =
      Good-insert_row row (order_rows rows) h.0 (Good-order_rows rows h.1)

  All-values : (rows : List (Row A)) → Good rows → All P (map (λ row. row.value) rows)
  All-values [] h = tt
  All-values (row ∷ rows) h = (h.0, All-values rows h.1)

  pub All-read_namespace : (rows : List (Row A)) → HoldsIn rows → All P (read_namespace ns rows)
  unfolding read_namespace
  All-read_namespace rows h = All-values _ (Good-order_rows _ (Good-retain rows h))
