-- ===== src/Root/Publish/Packages.antt =====
-- What `distribute`, the end of `verify_and_publish` of services/root-node/src/main.rs, stores.
use Prim.Native.String.{◌++◌}
use open_agenet.Base.{ℕ, String, ◌≡◌, some, arith, ok}
use open_agenet.Base.Maps.{insert}
use open_agenet.Bulletin.{BulletinEvent}
use open_agenet.Crypto.Crates.{Primitives}
use open_agenet.Package.{AgentMetadata, VerifiedPackage}
use open_agenet.Protocol.{VerifyAndPublishRequest}
use open_agenet.Root.{Store, Node, World, VerifyResponse}
use open_agenet.Root.Files.{read_list}
use open_agenet.Root.Publish.{
  archive_prefix, archive_verified, update_latest_version, mirror_latest_version_sqlite,
  enqueue_cdn, enqueue_discovery, package_of, distribute, replace_package,
}
use open_agenet.Storage.{holds, did_to_file_name}

-- Where the newest package of an agent is kept.
abbrev pub verified_path : String → String
verified_path did = "verified-packages/" ++ did_to_file_name did

module _ ⦃p : Primitives⦄ (node : Node) (world : World) (r : VerifyAndPublishRequest)
    (metadata : AgentMetadata) (did_hash metadata_hash operation : String) (version : ℕ)
    (event : BulletinEvent) where
  abbrev pub published : VerifiedPackage
  published = package_of node world (world.now 5) r metadata did_hash metadata_hash event

  abbrev pub prefix : String
  prefix = archive_prefix r.agent_did version

  -- The files that an answer leaves.
  pub record Stores (s s' : Store) : Type 0 where
    pub bulletin : s'.bulletin_file ≡ s.bulletin_file
    pub documents :
        s'.documents ≡ insert (prefix ++ "/did-document.json") (holds r.did_document) s.documents
    pub metadata_files :
        s'.metadata ≡ insert (prefix ++ "/metadata.json") (holds metadata) s.metadata
    pub packages :
        s'.packages
        ≡ insert
            (verified_path r.agent_did)
            (holds published)
            (insert (prefix ++ "/package.json") (holds published) s.packages)
    pub queued :
        s'.cdn_queue_file ≡ some (holds (replace_package published (read_list s.cdn_queue_file)))

  distribute_bulletin :
      (s s' : Store) (v : VerifyResponse)
      → distribute node world r metadata did_hash metadata_hash operation version event s
        ≡ (ok v, s')
      → s'.bulletin_file ≡ s.bulletin_file
  unfolding distribute archive_verified update_latest_version mirror_latest_version_sqlite
      enqueue_cdn enqueue_discovery
  distribute_bulletin s s' v h = ground (arith, h)

  distribute_documents :
      (s s' : Store) (v : VerifyResponse)
      → distribute node world r metadata did_hash metadata_hash operation version event s
        ≡ (ok v, s')
      → s'.documents ≡ insert (prefix ++ "/did-document.json") (holds r.did_document) s.documents
  unfolding distribute archive_verified update_latest_version mirror_latest_version_sqlite
      enqueue_cdn enqueue_discovery
  distribute_documents s s' v h = ground (arith, h)

  distribute_metadata :
      (s s' : Store) (v : VerifyResponse)
      → distribute node world r metadata did_hash metadata_hash operation version event s
        ≡ (ok v, s')
      → s'.metadata ≡ insert (prefix ++ "/metadata.json") (holds metadata) s.metadata
  unfolding distribute archive_verified update_latest_version mirror_latest_version_sqlite
      enqueue_cdn enqueue_discovery
  distribute_metadata s s' v h = ground (arith, h)

  distribute_packages :
      (s s' : Store) (v : VerifyResponse)
      → distribute node world r metadata did_hash metadata_hash operation version event s
        ≡ (ok v, s')
      → s'.packages
        ≡ insert
            (verified_path r.agent_did)
            (holds published)
            (insert (prefix ++ "/package.json") (holds published) s.packages)
  unfolding distribute archive_verified update_latest_version mirror_latest_version_sqlite
      enqueue_cdn enqueue_discovery
  distribute_packages s s' v h = ground (arith, h)

  distribute_queue :
      (s s' : Store) (v : VerifyResponse)
      → distribute node world r metadata did_hash metadata_hash operation version event s
        ≡ (ok v, s')
      → s'.cdn_queue_file ≡ some (holds (replace_package published (read_list s.cdn_queue_file)))
  unfolding distribute archive_verified update_latest_version mirror_latest_version_sqlite
      enqueue_cdn enqueue_discovery
  distribute_queue s s' v h = ground (arith, h)

  pub distribute-Stores :
      (s s' : Store) (v : VerifyResponse)
      → distribute node world r metadata did_hash metadata_hash operation version event s
        ≡ (ok v, s')
      → Stores s s'
  distribute-Stores s s' v h = record {
    bulletin = distribute_bulletin s s' v h;
    documents = distribute_documents s s' v h;
    metadata_files = distribute_metadata s s' v h;
    packages = distribute_packages s s' v h;
    queued = distribute_queue s s' v h;
  }
