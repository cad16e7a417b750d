-- ===== src/Storage/Sqlite/Rows.antt =====
-- The statements of `SqliteJsonStore` (crates/oan-storage/src/lib.rs): a row for each pair of
-- namespace and key, what is read after a write, and what other rows see of it.
use open_agenet.Base.{
  ℕ, String, ◌≡◌, refl, sym, ap, ◌∙◌, ◌||◌, Bool, true, false, not, ◌&&◌, none, some, List, [], ◌∷◌,
  arith, ◌==◌, eq_iff, eq_refl, length, any, retain, find, if◌then◌else◌, Bool-cases, inl, inr,
}
use open_agenet.Storage.Sqlite.{
  Row, has_key, overwrite, append_row, upsert_json, read_json, delete_json, found_value,
  count_namespace, delete_namespace,
}

module _ {A : Type 0} where
  -- `PRIMARY KEY(namespace, record_key)`.
  abbrev pub IsKeyed : List (Row A) → Type 0
  IsKeyed [] = Unit
  IsKeyed (r ∷ rows) = (any (has_key r.namespace r.record_key) rows ≡ false) × IsKeyed rows

  -- A row with one pair of names does not have another pair.
  has_key-other :
      (ns ns' key key' : String) (r : Row A)
      → (ns == ns' && key == key') ≡ false
      → has_key ns key r ≡ true
      → has_key ns' key' r ≡ false
  has_key-other ns ns' key key' r h e = ground (
    arith,
    eq_iff r.namespace ns,
    eq_iff r.record_key key,
    eq_iff r.namespace ns',
    eq_iff r.record_key key',
    eq_iff ns ns',
    eq_iff key key',
  )

  find-overwrite_self :
      (ns key : String) (value : A) (now : ℕ) (rows : List (Row A))
      → any (has_key ns key) rows ≡ true
      → found_value (find (has_key ns key) (overwrite ns key value now rows)) ≡ some value
  unfolding overwrite
  find-overwrite_self ns key value now [] h = cc
  find-overwrite_self ns key value now (r ∷ rows) h = elim (Bool-cases (has_key ns key r)) [
    | inl e ↦ rw (e, e)
    | inr e ↦ rw (e, e) (find-overwrite_self ns key value now rows (rw e at h))
  ]

  find-overwrite_other :
      (ns ns' key key' : String) (value : A) (now : ℕ) (rows : List (Row A))
      → (ns == ns' && key == key') ≡ false
      → found_value (find (has_key ns' key') (overwrite ns key value now rows))
        ≡ found_value (find (has_key ns' key') rows)
  unfolding overwrite
  find-overwrite_other ns ns' key key' value now [] h = refl
  find-overwrite_other ns ns' key key' value now (r ∷ rows) h =
      let rest = find-overwrite_other ns ns' key key' value now rows h in
      elim (Bool-cases (has_key ns key r)) [
        | inl e ↦ let other = has_key-other ns ns' key key' r h e in rw e (rw other rest)
        | inr e ↦ rw e (elim (Bool-cases (has_key ns' key' r)) [ inl q ↦ rw q | inr q ↦ rw q rest ])
      ]

  find-append_row :
      (p : Row A → Bool) (row : Row A) (rows : List (Row A))
      → found_value (find p (append_row rows row))
        ≡ (if any p rows then found_value (find p rows) else if p row then some row.value else none)
  unfolding append_row
  find-append_row p row [] = elim (Bool-cases (p row)) [ inl e ↦ rw e | inr e ↦ rw e ]
  find-append_row p row (r ∷ rows) = elim (Bool-cases (p r)) [
    | inl e ↦ rw e
    | inr e ↦ rw e (find-append_row p row rows)
  ]

  find-none : (p : Row A → Bool) (rows : List (Row A)) → any p rows ≡ false → find p rows ≡ none
  find-none p [] h = refl
  find-none p (r ∷ rows) h = elim (Bool-cases (p r)) [
    | inl e ↦ cc (rw e at h)
    | inr e ↦ rw e (find-none p rows (rw e at h))
  ]

  upsert_self :
      (now : ℕ) (ns key : String) (value : A) (rows : List (Row A))
      → read_json ns key (upsert_json now ns key value rows) ≡ some value
  unfolding read_json upsert_json
  upsert_self now ns key value rows = elim (Bool-cases (any (has_key ns key) rows)) [
    | inl e ↦ rw e (find-overwrite_self ns key value now rows e)
    | inr e ↦ rw e (find-append_row (has_key ns key) _ rows ∙ rw (e, eq_refl ns, eq_refl key))
  ]

  upsert_other :
      (now : ℕ) (ns key ns' key' : String) (value : A) (rows : List (Row A))
      → (ns == ns' && key == key') ≡ false
      → read_json ns' key' (upsert_json now ns key value rows) ≡ read_json ns' key' rows
  unfolding read_json upsert_json
  upsert_other now ns key ns' key' value rows h = elim (Bool-cases (any (has_key ns key) rows)) [
    | inl e ↦ rw e (find-overwrite_other ns ns' key key' value now rows h)
    | inr e ↦ rw e (
        find-append_row (has_key ns' key') _ rows
        ∙ elim (Bool-cases (any (has_key ns' key') rows)) [
          | inl q ↦ rw q
          | inr q ↦ rw (q, h) (sym (ap found_value (find-none (has_key ns' key') rows q)))
        ])
  ]

  -- A value that is written under a namespace and a key is read there, and under every other pair
  -- the reads are what they were.
  pub read_json-upsert_json :
      (now : ℕ) (ns key ns' key' : String) (value : A) (rows : List (Row A))
      → read_json ns' key' (upsert_json now ns key value rows)
        ≡ (if ns == ns' && key == key' then some value else read_json ns' key' rows)
  read_json-upsert_json now ns key ns' key' value rows =
      elim (Bool-cases (ns == ns' && key == key')) [
        | inl e ↦
            let p : ns' ≡ ns = ground (arith, eq_iff ns ns') in
            let q : key' ≡ key = ground (arith, eq_iff key key') in
            rw e (rw (p, q) (upsert_self now ns key value rows))
        | inr e ↦ rw e (upsert_other now ns key ns' key' value rows e)
      ]

  any-overwrite :
      (ns ns' key key' : String) (value : A) (now : ℕ) (rows : List (Row A))
      → any (has_key ns' key') (overwrite ns key value now rows) ≡ any (has_key ns' key') rows
  unfolding overwrite
  any-overwrite ns ns' key key' value now [] = refl
  any-overwrite ns ns' key key' value now (r ∷ rows) =
      let rest = any-overwrite ns ns' key key' value now rows in
      elim (Bool-cases (has_key ns key r)) [ inl e ↦ rw (e, rest) | inr e ↦ rw (e, rest) ]

  any-append_row :
      (p : Row A → Bool) (row : Row A) (rows : List (Row A))
      → any p (append_row rows row) ≡ (any p rows || p row)
  unfolding append_row
  any-append_row p row [] = ground arith
  any-append_row p row (r ∷ rows) = ground (arith, any-append_row p row rows)

  IsKeyed-overwrite :
      (ns key : String) (value : A) (now : ℕ) (rows : List (Row A))
      → IsKeyed rows
      → IsKeyed (overwrite ns key value now rows)
  unfolding overwrite
  IsKeyed-overwrite ns key value now [] h = tt
  IsKeyed-overwrite ns key value now (r ∷ rows) h =
      let rest = IsKeyed-overwrite ns key value now rows h.1 in
      let alone = any-overwrite ns r.namespace key r.record_key value now rows ∙ h.0 in
      elim (Bool-cases (has_key ns key r)) [
        | inl e ↦ rw e (alone, rest)
        | inr e ↦ rw e (alone, rest)
      ]

  IsKeyed-append_row :
      (row : Row A) (rows : List (Row A))
      → IsKeyed rows
      → any (has_key row.namespace row.record_key) rows ≡ false
      → IsKeyed (append_row rows row)
  unfolding append_row
  IsKeyed-append_row row [] h new = (refl, tt)
  IsKeyed-append_row row (r ∷ rows) h new = (
    any-append_row (has_key r.namespace r.record_key) row rows
        ∙ rw h.0 (
            ground (
              arith,
              eq_iff r.namespace row.namespace,
              eq_iff row.namespace r.namespace,
              eq_iff r.record_key row.record_key,
              eq_iff row.record_key r.record_key,
            )),
    IsKeyed-append_row row rows h.1 (ground arith),
  )

  -- If no pair of namespace and key has two rows, none has after a write either.
  pub upsert_json-IsKeyed :
      (now : ℕ) (ns key : String) (value : A) (rows : List (Row A))
      → IsKeyed rows
      → IsKeyed (upsert_json now ns key value rows)
  unfolding upsert_json
  upsert_json-IsKeyed now ns key value rows h = elim (Bool-cases (any (has_key ns key) rows)) [
    | inl e ↦ rw e (IsKeyed-overwrite ns key value now rows h)
    | inr e ↦ rw e (IsKeyed-append_row _ rows h e)
  ]

  any-retain :
      (p q : Row A → Bool) (rows : List (Row A))
      → any p rows ≡ false
      → any p (retain q rows) ≡ false
  any-retain p q [] h = refl
  any-retain p q (r ∷ rows) h = ground (arith, any-retain p q rows)

  find-retain-not :
      (p : Row A → Bool) (rows : List (Row A)) → find p (retain (λ r. not (p r)) rows) ≡ none
  find-retain-not p [] = refl
  find-retain-not p (r ∷ rows) = elim (Bool-cases (p r)) [
    | inl e ↦ rw e (find-retain-not p rows)
    | inr e ↦ rw (e, e) (find-retain-not p rows)
  ]

  retain-retain-not :
      (p : Row A → Bool) (rows : List (Row A)) → retain p (retain (λ r. not (p r)) rows) ≡ []
  retain-retain-not p [] = refl
  retain-retain-not p (r ∷ rows) = elim (Bool-cases (p r)) [
    | inl e ↦ rw e (retain-retain-not p rows)
    | inr e ↦ rw (e, e) (retain-retain-not p rows)
  ]

  -- A deleted row is not read any more, and a deleted namespace has no rows.
  pub read_json-delete_json :
      (ns key : String) (rows : List (Row A))
      → (read_json ns key (delete_json ns key rows) ≡ none)
        × (count_namespace ns (delete_namespace ns rows) ≡ 0)
  unfolding read_json delete_json count_namespace delete_namespace
  read_json-delete_json ns key rows =
      (ap found_value (find-retain-not (has_key ns key) rows), ap length (retain-retain-not _ rows))
