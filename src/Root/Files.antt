-- ===== src/Root/Files.antt =====
-- services/root-node/src/main.rs: how the root reads and writes its files.
use open_agenet.Base.{
  String, Option, none, some, List, [], Result, ok, err, map_err, unwrap_or, is_empty,
  if◌then◌else◌,
}
use open_agenet.Base.Action.{Action, pure, attempt}
use open_agenet.Base.Maps.{Map}
use open_agenet.Bulletin.{Bulletin}
use open_agenet.Crypto.Crates.{Primitives}
use open_agenet.Json.{Time, Value}
use open_agenet.Package.{VerifiedPackage}
use open_agenet.Storage.{File, holds, decode, read_file, io, sqlite, resolve}
use open_agenet.Storage.Sqlite.{read_namespace}
use open_agenet.Root.{
  AuthorizationState, no_authorizations, RequestNonceStore, Failure, storage, Store, Node, World,
}

-- What a missing file stands for.
abbrev pub load : {A : Type 0} → A → Option (File A) → Result Failure A
load default none = ok default
load default (some f) = map_err storage (decode f)

-- `read(..).unwrap_or_default()`, where the default is empty.
abbrev pub read_list : {A : Type 0} → Option (File (List A)) → List A
read_list f = unwrap_or (read_file f) []

unfoldable pub load_authorization_state : Store → Result Failure AuthorizationState
load_authorization_state s = load no_authorizations s.authorization_file

unfoldable pub load_nonce_store : Store → Result Failure RequestNonceStore
load_nonce_store s = load (record { nonces = [] }) s.nonce_file

unfoldable pub read_latest_versions : Store → Map Value
read_latest_versions s = read_list s.latest_file

module _ ⦃p : Primitives⦄ (node : Node) where
  -- A missing file is an empty bulletin, made at this time.
  unfoldable pub read_bulletin : Time → Store → Result Failure Bulletin
  read_bulletin created s =
      load
        (record { version = "0.1.0"; root_did = node.root_did; created_at = created; events = [] })
        s.bulletin_file

  -- `.unwrap_or_else(|_| state.authorization_state.clone())`.
  unfoldable pub current_authorizations : Store → AuthorizationState
  unfolding load_authorization_state
  current_authorizations s = unwrap_or (load_authorization_state s) node.authorization_state

  module _ (world : World) where
    unfoldable pub write_bulletin : Bulletin → Action Store Failure (Unit {0})
    write_bulletin b =
        attempt (world.disk node.paths.bulletin_file) (storage io)
          (λ s. record s { bulletin_file = some (holds b) })

    unfoldable pub save_nonce_store : RequestNonceStore → Action Store Failure (Unit {0})
    save_nonce_store n =
        attempt (world.disk node.paths.request_nonce_file) (storage io)
          (λ s. record s { nonce_file = some (holds n) })

    unfoldable pub write_authorizations : AuthorizationState → Action Store Failure (Unit {0})
    write_authorizations a =
        attempt (world.disk node.paths.authorization_state_file) (storage io)
          (λ s. record s { authorization_file = some (holds a) })

    -- `state.data.write(path, ..)`.
    abbrev pub write_data : String → (Store → Store) → Action Store Failure (Unit {0})
    write_data path change = attempt (world.disk (resolve node.data_store path)) (storage io) change

    -- A statement, made only if there is a database.
    abbrev pub statement : String → (Store → Store) → Action Store Failure (Unit {0})
    statement namespace change =
        if node.has_sqlite
        then attempt (world.database namespace) (storage sqlite) change
        else pure tt

    -- The rows of a namespace where there are some, and the file's list otherwise.
    abbrev queue_of : {A : Type 0} → String → List A → List A → Result Failure (List A)
    queue_of namespace rows in_file =
        if node.has_sqlite
        then if world.database namespace
          then if is_empty rows then ok in_file else ok rows
          else err (storage sqlite)
        else ok in_file

    unfoldable pub read_cdn_queue : Store → Result Failure (List VerifiedPackage)
    read_cdn_queue s =
        queue_of "root.cdn_publish_queue" (read_namespace "root.cdn_publish_queue" s.package_rows)
          (read_list s.cdn_queue_file)

    unfoldable pub read_discovery_queue : Store → Result Failure (List Value)
    read_discovery_queue s =
        queue_of "root.discovery_notify_queue"
          (read_namespace "root.discovery_notify_queue" s.value_rows)
          (read_list s.discovery_queue_file)
