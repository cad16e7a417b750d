-- ===== src/Storage.antt =====
-- crates/oan-storage/src/lib.rs: the errors, names and paths of the files, and the stores. What a
-- file holds is a value of the type that is read from it: that serde_json reads back what it has
-- printed is taken for granted. The outside world says by `Disk` which writes go through.
pub mod Names
pub mod Files
pub mod Sqlite
pub mod Wallet
use Prim.Native.String.{◌++◌, len}
use text.Mathlib.Text.{starts_with}
use open_agenet.Base.{
  ℕ, Char, code, String, Bool, true, false, ◌||◌, ◌&&◌, Option, none, some, List, [], ◌∷◌, eqb,
  ◌==◌, is_some, Result, ok, err, ◌>>=◌, ok_or, if◌then◌else◌,
}
use open_agenet.Base.Maps.{Map, lookup, insert}
use open_agenet.Base.Action.{Action, attempt}
use open_agenet.Base.Texts.{is_alphanumeric, map_chars}

pub data StorageError : Type 0 where
  io json sqlite unsupported_database_url empty_database_path : StorageError

-- Whether the file at a path, or the table row of a name, can be written.
abbrev pub Disk : Type 0
Disk = String → Bool

abbrev colon_to_underscore : Char → Char
colon_to_underscore c = if eqb (code c) b':' then "_" else c

unfoldable pub did_to_file_name : String → String
did_to_file_name did = map_chars colon_to_underscore did ++ ".json"

-- A letter, a digit, `-`, `_` or `.`.
abbrev pub is_safe : ℕ → Bool
is_safe c = is_alphanumeric c || (eqb c b'-' || (eqb c b'_' || eqb c b'.'))

abbrev make_safe : Char → Char
make_safe c = if is_safe (code c) then c else "_"

unfoldable pub storage_safe_name : String → String
unfolding is_alphanumeric
storage_safe_name value = map_chars make_safe value

-- Whether the text ends in a slash.
abbrev pub ends_in_slash : String → Bool
ends_in_slash String.[] = false
ends_in_slash (String.◌∷◌ c String.[]) = eqb (code c) b'/'
ends_in_slash (String.◌∷◌ c (String.◌∷◌ d s)) = ends_in_slash (String.◌∷◌ d s)

-- `Path::join`: an absolute path replaces the one before.
unfoldable pub join : String → String → String
join base path =
    if starts_with path "/"
    then path
    else if base == "" || ends_in_slash base
    then base ++ path
    else base ++ ("/" ++ path)

-- `strip_prefix`.
unfoldable pub strip : String → String → Option String
strip String.[] s = some s
strip (String.◌∷◌ c t) String.[] = none
strip (String.◌∷◌ c t) (String.◌∷◌ d s) = if eqb (code c) (code d) then strip t s else none

abbrev pub or_else {ℓ} : {A : Type ℓ} → Option A → Option A → Option A
or_else none b = b
or_else (some a) b = some a

pub record SqliteDatabaseConfig : Type 0 where
  pub url : String
  pub path : String

-- `SqliteDatabaseConfig::parse`.
unfoldable pub parse_database_url : String → Result StorageError SqliteDatabaseConfig
unfolding strip
parse_database_url url = do
  raw_path ← ok_or (or_else (strip "sqlite://" url) (strip "sqlite:" url)) unsupported_database_url
  if raw_path == "" then err empty_database_path else ok (record { url = url; path = raw_path })

-- A file of JSON text: text that cannot be read as the wanted type, or a value of it.
pub data File {ℓ} (A : Type ℓ) : Type ℓ where
  corrupt : File A
  holds : A → File A

-- The files by their resolved paths.
abbrev pub Files : Type 0 → Type 0
Files A = Map (File A)

abbrev pub decode {ℓ} : {A : Type ℓ} → File A → Result StorageError A
decode corrupt = err json
decode (holds a) = ok a

-- `read` of one file, which may be missing.
abbrev pub read_file {ℓ} : {A : Type ℓ} → Option (File A) → Result StorageError A
read_file none = err io
read_file (some f) = decode f

pub record JsonStore : Type 0 where
  pub root : String

unfoldable pub resolve : JsonStore → String → String
unfolding join
resolve store path = join store.root path

module _ {A : Type 0} where
  -- `JsonStore::read`.
  unfoldable pub read : JsonStore → String → Files A → Result StorageError A
  read store path files = read_file (lookup (resolve store path) files)

  -- `JsonStore::write`.
  unfoldable pub write : Disk → JsonStore → String → A → Action (Files A) StorageError (Unit {0})
  write disk store path value =
      attempt (disk (resolve store path)) io (insert (resolve store path) (holds value))

  -- `JsonStore::exists`.
  unfoldable pub exists : JsonStore → String → Files A → Bool
  exists store path files = is_some (lookup (resolve store path) files)
