-- ===== src/Cdn/Roles.antt =====
-- The counts of `api_manifest_stats`, services/cdn-node/src/main.rs.
use open_agenet.Base.{
  ℕ, ◌+◌, String, ◌≡◌, refl, ◌∙◌, none, some, List, [], ◌∷◌, arith, ◌==◌, eq_iff, retain, length,
  if◌then◌else◌, Bool-cases, inl, inr, Option-cases,
}
use open_agenet.Cdn.{count_roles, role_counts}
use open_agenet.Core.Json.{natural}
use open_agenet.Json.{Value, Fields, end, field, object, as_u64, at, get, find_field, insert_field}
use open_agenet.Package.{Manifest, ManifestEntry}

pub find_field-insert_field :
    (k j : String) (v : Value) (fs : Fields)
    → find_field j (insert_field k v fs) ≡ (if k == j then some v else find_field j fs)
unfolding find_field insert_field
find_field-insert_field k j v end = refl
find_field-insert_field k j v (field i w fs) =
    ground (arith, eq_iff k j, eq_iff i k, eq_iff i j, find_field-insert_field k j v fs)

-- The count of a role that an object has.
abbrev count_in : String → Fields → ℕ
count_in role counts = elim (find_field role counts) [
  | none ↦ 0
  | some v ↦ elim (as_u64 v) [ none ↦ 0 | some n ↦ n ]
]

abbrev pub entries_with : String → List ManifestEntry → List ManifestEntry
entries_with role entries = retain (λ entry. entry.role == role) entries

count_in-count_roles :
    (role : String) (entries : List ManifestEntry) (counts : Fields)
    → count_in role (count_roles entries counts)
      ≡ count_in role counts + length (entries_with role entries)
unfolding count_roles
count_in-count_roles role [] counts = omega arith
count_in-count_roles role (entry ∷ entries) counts =
    let n = count_in entry.role counts in
    let next = insert_field entry.role (natural (n + 1)) counts in
    let later = count_in-count_roles role entries next in
    let found = find_field-insert_field entry.role role (natural (n + 1)) counts in
    elim (Bool-cases (entry.role == role)) [
      | inl e ↦ let same = (eq_iff entry.role role).0 e in ground (arith, e, later, found, same)
      | inr e ↦ ground (arith, e, later, found)
    ]

-- The count that the statistics show for a role, 0 where they have none.
abbrev pub count_of : Value → String → ℕ
count_of counts role = elim (as_u64 (at counts role)) [ none ↦ 0 | some n ↦ n ]

count_of-object : (fs : Fields) (role : String) → count_of (object fs) role ≡ count_in role fs
unfolding at get
count_of-object fs role = elim (Option-cases (find_field role fs)) [
  | inl e ↦ ground (arith, e)
  | inr (v, e) ↦ ground (arith, e)
]

-- In the statistics of the manifest each role has as its count the number of entries with this
-- role, which is 0 where no count is shown.
pub role_counts_lem :
    (role : String) (m : Manifest)
    → count_of (role_counts m) role ≡ length (entries_with role m.packages)
unfolding role_counts find_field
role_counts_lem role m =
    count_of-object (count_roles m.packages end) role
    ∙ count_in-count_roles role m.packages end
    ∙ omega arith
