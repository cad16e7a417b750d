-- ===== src/Json.antt =====
-- The JSON values of serde_json that the services build and read, and the interface that its
-- derived `Serialize` implementations fill.
use Prim.Native.String.{compare}
use text.Mathlib.Text.{is_lt}
use open_agenet.Base.{
  ℕ, String, Bool, false, Option, none, some, List, [], ◌∷◌, ◌==◌, if◌then◌else◌, map,
}

-- An instant of chrono's `DateTime<Utc>`, in nanoseconds since 1970.
abbrev pub Time : Type 0
Time = ℕ

-- serde_json's numbers: a `u64`, the absolute value of a negative `i64`, or the bits of an `f64`.
pub data Number : Type 0 where
  unsigned negative float : ℕ → Number

mutual
  pub data Value : Type 0 where
    null : Value
    bool : Bool → Value
    number : Number → Value
    string : String → Value
    array : Items → Value
    object : Fields → Value

  pub data Items : Type 0 where
    nil : Items
    cons : (head : Value) (tail : Items) → Items

  pub data Fields : Type 0 where
    end : Fields
    field : (key : String) (value : Value) (rest : Fields) → Fields

abbrev pub items : List Value → Items
items [] = nil
items (v ∷ vs) = cons v (items vs)

abbrev pub values : Items → List Value
values nil = []
values (cons v vs) = v ∷ values vs

-- `Map::insert`: the fields of an object are kept in the order of their names.
unfoldable pub insert_field : String → Value → Fields → Fields
insert_field k v end = field k v end
insert_field k v (field j w fs) =
    let rest = insert_field k v fs in
    if j == k
    then field k v fs
    else if is_lt (compare k j)
    then field k v (field j w fs)
    else field j w rest

-- `json!({..})`, and the serialisation of a struct with these names.
unfoldable pub fields_of : List (String × Value) → Fields
unfolding insert_field
fields_of [] = end
fields_of ((k, v) ∷ kvs) = insert_field k v (fields_of kvs)

abbrev pub json : List (String × Value) → Value
json kvs = object (fields_of kvs)

unfoldable pub find_field : String → Fields → Option Value
find_field k end = none
find_field k (field j v fs) = if j == k then some v else find_field k fs

-- `value.get(key)`, and `value[key]`, which is null where `get` finds nothing.
unfoldable pub get : Value → String → Option Value
unfolding find_field
get (object fs) k = find_field k fs
get _ k = none

unfoldable pub at : Value → String → Value
unfolding get
at v k = elim (get v k) [ none ↦ null | some w ↦ w ]

abbrev pub as_str : Value → Option String
as_str (string s) = some s
as_str _ = none

abbrev pub as_u64 : Value → Option ℕ
as_u64 (number (unsigned n)) = some n
as_u64 _ = none

abbrev pub as_array : Value → Option (List Value)
as_array (array vs) = some (values vs)
as_array _ = none

-- `value == text`, which holds of that string value alone.
abbrev pub is_text : Value → String → Bool
is_text (string s) t = s == t
is_text _ t = false

abbrev pub texts : List String → Value
texts ts = array (items (map string ts))

abbrev pub optional {ℓ} : {A : Type ℓ} → (A → Value) → Option A → Value
optional f none = null
optional f (some a) = f a

-- `serde_json::to_value`; `none` is a serialisation error.
pub record Serialize {ℓ} (A : Type ℓ) : Type ℓ where
  pub to_value : A → Option Value

instance abbrev pub value_serialize : Serialize Value
value_serialize = record { to_value = some }
