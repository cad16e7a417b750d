-- ===== src/Storage/Wallet.antt =====
-- `LocalCredentialStore` of crates/oan-storage/src/lib.rs: credentials kept in the files of their
-- owner, under a path made of four names and, for two kinds, under a short path as well.
use Prim.Native.String.{◌++◌}
use open_agenet.Base.{String, ◌≡◌, ◌∙◌, true, eq_refl, Result, ok}
use open_agenet.Base.Action.{Action, ◌>>◌}
use open_agenet.Storage.{
  Disk, StorageError, Files, JsonStore, resolve, read, write, join, storage_safe_name,
  did_to_file_name,
}
use open_agenet.Storage.Files.{read-write}

pub record LocalCredentialStore : Type 0 where
  pub store : JsonStore

-- `credential_path`.
unfoldable pub credential_path : (dimension issuer subject credential_id : String) → String
unfolding join storage_safe_name
credential_path dimension issuer subject credential_id =
    join
      (join
        (join (join (join "credentials" "by-dimension") (storage_safe_name dimension))
          (storage_safe_name issuer))
        (storage_safe_name subject))
      (storage_safe_name credential_id ++ ".json")

-- The short path of an agent's registration credential.
unfoldable pub registration_path : String → String
unfolding join did_to_file_name
registration_path agent_did =
    join (join "credentials" "agent-registrations") (did_to_file_name agent_did)

abbrev pub authorization_path : String
authorization_path = "credentials/node-authorization.json"

module _ {A : Type 0} where
  unfoldable pub write_credential :
      Disk
      → LocalCredentialStore
      → (dimension issuer subject credential_id : String) → A
      → Action (Files A) StorageError (Unit {0})
  write_credential disk s dimension issuer subject credential_id credential =
      write disk s.store (credential_path dimension issuer subject credential_id) credential

  unfoldable pub read_credential :
      LocalCredentialStore
      → (dimension issuer subject credential_id : String) → Files A
      → Result StorageError A
  read_credential s dimension issuer subject credential_id =
      read s.store (credential_path dimension issuer subject credential_id)

  unfoldable pub write_node_authorization :
      Disk → LocalCredentialStore → A → Action (Files A) StorageError (Unit {0})
  unfolding write_credential
  write_node_authorization disk s credential = do
    write_credential disk s "node-authorization" "root" "self" "latest" credential
    write disk s.store authorization_path credential

  unfoldable pub read_node_authorization : LocalCredentialStore → Files A → Result StorageError A
  read_node_authorization s = read s.store authorization_path

  unfoldable pub write_agent_registration :
      Disk → LocalCredentialStore → String → A → Action (Files A) StorageError (Unit {0})
  unfolding write_credential
  write_agent_registration disk s agent_did credential = do
    write_credential disk s "agent-registration" "registrar" agent_did "latest" credential
    write disk s.store (registration_path agent_did) credential

  unfoldable pub read_agent_registration :
      LocalCredentialStore → String → Files A → Result StorageError A
  read_agent_registration s agent_did = read s.store (registration_path agent_did)

  -- If the disk takes both writes, an agent's registration credential is read back afterwards.
  pub read-write_agent_registration :
      (disk : Disk) (s : LocalCredentialStore) (agent_did : String) (credential : A)
      (files : Files A)
      → disk (resolve s.store (credential_path "agent-registration" "registrar" agent_did "latest"))
        ≡ true
      → disk (resolve s.store (registration_path agent_did)) ≡ true
      → read_agent_registration s agent_did
          (write_agent_registration disk s agent_did credential files).1
        ≡ ok credential
  unfolding read_agent_registration write_agent_registration
  read-write_agent_registration disk s agent_did credential files first second =
      let (done, _) =
        read-write disk s.store
          (credential_path "agent-registration" "registrar" agent_did "latest")
          (registration_path agent_did) credential files first in
      rw done (
        (read-write disk s.store (registration_path agent_did) (registration_path agent_did)
          credential _ second).1
        ∙ rw eq_refl)
