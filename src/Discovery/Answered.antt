-- ===== src/Discovery/Answered.antt =====
-- What the answers of `query` of services/discovery-node/src/main.rs name after a sync.
use open_agenet.Base.{
  ℕ, String, ◌≡◌, refl, ◌∙◌, sym, subst, true, some, List, [], ◌∷◌, arith, inl, inr, All, ok,
  Result-cases, Bool-cases, is_empty, ap,
}
use open_agenet.Base.Action.Keeps.{Composes, Keeps, pure-Keeps, then-Keeps, attempt-Keeps, if-Keeps}
use open_agenet.Core.{DidDocument}
use open_agenet.Crypto.Crates.{Primitives}
use open_agenet.Discovery.Answer.{read_indexed_packages, query}
use open_agenet.Discovery.Stands.{Stands, candidates-Stands}
use open_agenet.Discovery.Indexed.{IsVerified, sync_from_cdn-stored, store_progress-index_file}
use open_agenet.Discovery.Query.{candidates}
use open_agenet.Discovery.Service.{CdnServiceInfo, resolve_cdn_service, root_verifying_key}
use open_agenet.Discovery.Sync.{
  Store, Node, World, Peers, Progress, upsert_each, write_indexed_packages, append_json_log,
  write_sync_history_sqlite, log_progress, store_progress, sync_from_cdn,
}
use open_agenet.Json.{Time, Value, Number}
use open_agenet.Package.{VerifiedPackage, Manifest}
use open_agenet.Protocol.{DiscoveryQuery, DiscoveryResponse}
use open_agenet.Storage.{holds}
use open_agenet.Storage.Sqlite.{delete_namespace, read_namespace}
use open_agenet.Storage.Sqlite.Namespace.{
  HoldsIn, HoldsIn-delete_namespace, HoldsIn-upsert_json, All-read_namespace,
}

abbrev SameRows : Store → Store → Type 0
SameRows s s' = s'.package_rows ≡ s.package_rows

SameRows-Composes : Composes SameRows
SameRows-Composes = record { same = λ s. refl; after = λ h k. k ∙ h }

module _ (P : VerifiedPackage → Type 0) where
  -- The rows of the index have the property.
  abbrev RowsHold : Store → Type 0
  RowsHold s = HoldsIn "discovery.indexed_packages" P s.package_rows

  abbrev KeepsRows : Store → Store → Type 0
  KeepsRows s s' = RowsHold s → RowsHold s'

  KeepsRows-Composes : Composes KeepsRows
  KeepsRows-Composes = record { same = λ s h. h; after = λ k l h. l (k h) }

  module _ ⦃p : Primitives⦄ (node : Node) (world : World) where
    upsert_each-KeepsRows :
        (at_row : Time) (packages : List VerifiedPackage)
        → All P packages
        → Keeps KeepsRows (upsert_each node world at_row packages)
    unfolding upsert_each
    upsert_each-KeepsRows at_row [] good = pure-Keeps KeepsRows-Composes tt
    upsert_each-KeepsRows at_row (pkg ∷ rest) good =
        then-Keeps KeepsRows-Composes
          (if-Keeps KeepsRows-Composes node.has_sqlite
            (attempt-Keeps KeepsRows-Composes _ _ _ (λ s h.
              HoldsIn-upsert_json "discovery.indexed_packages" P at_row pkg.did pkg s.package_rows
                good.0 h))
            (pure-Keeps KeepsRows-Composes tt))
          (upsert_each-KeepsRows at_row rest good.1)

    -- The statement that deletes the old rows has gone through.
    write_indexed_packages-RowsHold :
        (at_row : Time) (packages : List VerifiedPackage) (s s' : Store)
        → All P packages
        → node.has_sqlite ≡ true
        → write_indexed_packages node world at_row packages s ≡ (ok tt, s')
        → RowsHold s'
    unfolding write_indexed_packages
    write_indexed_packages-RowsHold at_row packages s s' good d h =
        let emptied : Store = record s {
          package_rows = delete_namespace "discovery.indexed_packages" s.package_rows;
        } in
        elim (Bool-cases (world.database "discovery.indexed_packages")) [
          | inr e ↦ absurd (ground (arith, d, e, h))
          | inl e ↦
              let later : upsert_each node world at_row packages emptied ≡ (ok tt, s') =
                ground (arith, d, e, h) in
              subst RowsHold (ap (λ r. r.1) later) (
                (upsert_each-KeepsRows at_row packages good).kept emptied
                  (HoldsIn-delete_namespace "discovery.indexed_packages" P s.package_rows))
        ]

module _ ⦃p : Primitives⦄ (P : VerifiedPackage → Type 0) (node : Node) (world : World) where
  log_progress-RowsHold :
      (done : Progress) (url : String) (s s' : Store) (v : Value)
      → All P done.indexed
      → node.has_sqlite ≡ true
      → log_progress node world done url s ≡ (ok v, s')
      → RowsHold P s'
  unfolding log_progress append_json_log write_sync_history_sqlite
  log_progress-RowsHold done url s s' v good d h =
      let t : Store = (write_indexed_packages node world (world.now 0) done.indexed s).1 in
      elim (Result-cases (write_indexed_packages node world (world.now 0) done.indexed s).0) [
        | inr (e, f) ↦ absurd (ground (arith, f, h))
        | inl (tt, f) ↦
            let same : s'.package_rows ≡ t.package_rows = ground (arith, f, h) in
            let first : write_indexed_packages node world (world.now 0) done.indexed s
                ≡ (ok tt, t) =
              ap (λ r. (r, t)) f in
            subst (HoldsIn "discovery.indexed_packages" P) (sym same) (
              write_indexed_packages-RowsHold P node world (world.now 0) done.indexed s t good d
                first)
      ]

  store_progress-RowsHold :
      (done : Progress) (url : String) (s s' : Store) (v : Value)
      → All P done.indexed
      → node.has_sqlite ≡ true
      → store_progress node world done url s ≡ (ok v, s')
      → RowsHold P s'
  unfolding store_progress
  store_progress-RowsHold done url s s' v good d h =
      log_progress-RowsHold done url (record s { index_file = some (holds done.indexed) }) s' v good
        d (ground (arith, h))

  -- What is read is the rows, or the file's list.
  read_indexed_packages-All :
      (s : Store) (in_file packages : List VerifiedPackage)
      → s.index_file ≡ some (holds in_file)
      → All P in_file
      → (node.has_sqlite ≡ true → RowsHold P s)
      → read_indexed_packages node world s ≡ ok packages
      → All P packages
  unfolding read_indexed_packages
  read_indexed_packages-All s in_file packages f good rows h =
      let in_rows = read_namespace "discovery.indexed_packages" s.package_rows in
      let from_file : in_file ≡ packages → All P packages = λ e. subst (All P) e good in
      elim (Bool-cases node.has_sqlite) [
        | inr d ↦ from_file (ground (arith, f, d, h))
        | inl d ↦ elim (Bool-cases (world.database "discovery.indexed_packages")) [
          | inr w ↦ absurd (ground (arith, d, w, h))
          | inl w ↦ elim (Bool-cases (is_empty in_rows)) [
            | inl e ↦ from_file (ground (arith, f, d, w, e, h))
            | inr e ↦
                let same : in_rows ≡ packages = ground (arith, f, d, w, e, h) in
                subst (All P) same
                  (All-read_namespace "discovery.indexed_packages" P s.package_rows (rows d))
          ]
        ]
      ]

module _ ⦃p : Primitives⦄ (quarters : ℕ → Number) where
  query-candidates :
      (node : Node) (world : World) (signing_key : p.SigningKey) (q : DiscoveryQuery) (s : Store)
      (response : DiscoveryResponse)
      → query quarters node world signing_key q s ≡ ok response
      → (packages : List VerifiedPackage) × (read_indexed_packages node world s ≡ ok packages)
        × (response.candidates ≡ candidates packages q)
  unfolding query
  query-candidates node world signing_key q s response h =
      elim (Result-cases (read_indexed_packages node world s)) [
        | inr (e, r) ↦ absurd (ground (arith, r, h))
        | inl (packages, r) ↦ (packages, r, ground (arith, r, h))
      ]

  -- If a sync ends well, then every candidate of an answer that is given to a query from the store
  -- that the sync leaves stands for a package that matches the query and that passed all checks of
  -- the sync: its hashes, the root's signature on the hash of an event of the checked bulletin about
  -- its own agent, and the domains of this node. It holds whether the answer comes from the rows of
  -- the database or from the file of the index.
  pub query-IsVerified :
      (node : Node) (world later : World) (peers : Peers) (s s' : Store) (v value : Value)
      (document : DidDocument) (root_key : p.VerifyingKey) (cdn : CdnServiceInfo)
      (manifest : Manifest) (signing_key : p.SigningKey) (q : DiscoveryQuery)
      (response : DiscoveryResponse)
      → peers.fetch_bulletin ≡ ok value
      → peers.fetch_root_document ≡ ok document
      → root_verifying_key document ≡ ok root_key
      → resolve_cdn_service node.cdn_endpoint value ≡ ok cdn
      → peers.fetch_manifest cdn.manifest_url ≡ ok manifest
      → sync_from_cdn node world peers s ≡ (ok v, s')
      → query quarters node later signing_key q s' ≡ ok response
      → All (Stands (IsVerified node value root_key) q) response.candidates
  query-IsVerified node world later peers s s' v value document root_key cdn manifest signing_key q
        response b d k u m h a =
      let Good = IsVerified node value root_key in
      let (_, done, stored, good, _) =
        sync_from_cdn-stored node world peers s s' v value document root_key cdn manifest b d k u m
          h in
      let (packages, read, shown) = query-candidates node later signing_key q s' response a in
      let all_good =
        read_indexed_packages-All Good node later s' done.indexed packages
          (store_progress-index_file node world done cdn.manifest_url s s' v stored) good
          (λ e. store_progress-RowsHold Good node world done cdn.manifest_url s s' v good e stored)
          read in
      subst (All (Stands Good q)) (sym shown) (candidates-Stands Good packages q all_good)
