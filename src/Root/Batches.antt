-- ===== src/Root/Batches.antt =====
-- The batches of services/root-node/src/main.rs: `publish_cdn_batch` and `notify_discovery_batch`.
-- What an HTTP server answers is an argument.
pub mod Drops
use Prim.Native.String.{◌++◌}
use open_agenet.Base.{
  ℕ, suc, ◌+◌, ◌*◌, ◌/◌, ◌^◌, String, Bool, true, false, not, ◌&&◌, Option, none, some, List, [],
  ◌∷◌, ◌==◌, Result, ok, err, map_err, unwrap_or, ok_or, leb, ltb, find, filter_map, retain, push,
  take, length, is_empty, if◌then◌else◌,
}
use open_agenet.Base.Action.{Action, pure, reads, gets, raising, ◌>>=◌, ◌>>◌}
use open_agenet.Base.Maps.{Map, lookup, insert}
use open_agenet.Base.Texts.{decimal}
use open_agenet.Core.Json.{natural}
use open_agenet.Core.Tags.{matches_authorized_domains}
use open_agenet.Crypto.Crates.{Primitives}
use open_agenet.Json.{Time, Value, string, array, json, items, texts, at, as_str, as_u64, as_array}
use open_agenet.Package.{VerifiedPackage}
use open_agenet.Root.{
  DiscoveryAuthorizationState, AuthorizationState, Failure, message, ApiError, internal, Store,
  Node, World,
}
use open_agenet.Root.Urls.{cdn_publish_url, cdn_manifest_url}
use open_agenet.Root.Files.{
  read_list, read_bulletin, read_cdn_queue, read_discovery_queue, current_authorizations,
  write_data, statement,
}
use open_agenet.Storage.{holds}
use open_agenet.Storage.Sqlite.{upsert_json, delete_json}

-- The answer to a request: a status, or an error of the connection.
pub data Reply : Type 0 where
  answered : ℕ → Reply
  unreachable : String → Reply

abbrev pub is_success : ℕ → Bool
is_success status = leb 200 status && ltb status 300

-- `timestamp_nanos_opt().unwrap_or_default()`.
abbrev pub nanos : Time → String
nanos t = if ltb t (2 ^ 63) then decimal t else "0"

-- The keys of an item of the queue of notifications, if it has them.
abbrev pub notification_key : Value → Option String
notification_key item = elim (as_str (at item "agentDid")) [
  | none ↦ none
  | some did ↦ elim (as_u64 (at item "bulletinSequence")) [
    | none ↦ none
    | some sequence ↦ some (did ++ (":" ++ decimal sequence))
  ]
]

abbrev pub tags_of_item : Value → List String
tags_of_item item = elim (as_array (at item "capabilityTags")) [
  | none ↦ []
  | some vs ↦ filter_map as_str vs
]

-- What a batch has come to.
pub record Progress : Type 0 where
  pub published : List String
  pub failed : List Value

module _ ⦃p : Primitives⦄ (node : Node) where
  -- The items that are in the domains of a discovery node, and those that it is told of.
  abbrev pub in_domains : DiscoveryAuthorizationState → List Value → List Value
  in_domains auth queue =
      retain
        (λ item.
          matches_authorized_domains node.tag_tree (tags_of_item item) auth.authorized_domains)
        queue

  unfoldable pub items_for : DiscoveryAuthorizationState → List Value → List Value
  items_for auth queue = take 100 (in_domains auth queue)

  module _ (world : World) where
    unfoldable pub mark_cdn_queue_published : String → Action Store Failure (Unit {0})
    mark_cdn_queue_published did = do
      statement node world "root.cdn_publish_queue"
          (λ s. record s { package_rows = delete_json "root.cdn_publish_queue" did s.package_rows })
      queue ← gets (λ s. read_list s.cdn_queue_file)
      write_data node world "queues/cdn-publish.json" (λ s. record s {
        cdn_queue_file = some (holds (retain (λ item. not (item.did == did)) queue));
      })

    -- The row of an item that names an agent and a sequence.
    unfoldable pub delete_item : Value → Action Store Failure (Unit {0})
    delete_item item = elim (notification_key item) [
      | none ↦ pure tt
      | some key ↦ statement node world "root.discovery_notify_queue" (λ s. record s {
        value_rows = delete_json "root.discovery_notify_queue" key s.value_rows;
      })
    ]

    unfoldable pub delete_items : List Value → Action Store Failure (Unit {0})
    delete_items [] = pure tt
    delete_items (item ∷ rest) = delete_item item >> delete_items rest

    -- The file becomes the empty list, whatever the items are.
    unfoldable pub mark_discovery_queue_notified : List Value → Action Store Failure (Unit {0})
    unfolding delete_items
    mark_discovery_queue_notified queue = do
      delete_items queue
      write_data node world "queues/discovery-notify.json"
          (λ s. record s { discovery_queue_file = some (holds []) })

    -- The times are those of the key and of the row.
    unfoldable pub write_batch_history :
        Time → Time → String → Value → Action Store Failure (Unit {0})
    write_batch_history keyed at_row namespace item = do
      statement node world namespace (λ s. record s {
        value_rows = upsert_json at_row namespace (nanos keyed) item s.value_rows;
      })
      let path = "indexes/" ++ (namespace ++ ".json")
      history ← gets (λ s. read_list (lookup path s.histories))
      write_data node world path
          (λ s. record s { histories = insert path (holds (push history item)) s.histories })

    -- What the loop does with an answer.
    unfoldable pub settle : Reply → VerifiedPackage → Progress → Action Store Failure Progress
    settle (unreachable text) pkg done = pure (record done {
      failed = push done.failed (json (("did", string pkg.did) ∷ ("error", string text) ∷ []));
    })
    settle (answered status) pkg done =
        if is_success status
        then mark_cdn_queue_published pkg.did
          >> pure (record done { published = push done.published pkg.did })
        else pure (record done {
          failed =
              push done.failed (json (("did", string pkg.did) ∷ ("status", natural status) ∷ []));
        })

    -- The loop over the queue. `post` answers the k-th request of the batch.
    unfoldable pub publish_each :
        (post : ℕ → VerifiedPackage → Reply)
        → ℕ
        → List VerifiedPackage
        → Progress
        → Action Store Failure Progress
    publish_each post k [] done = pure done
    publish_each post k (pkg ∷ rest) done =
        settle (post k pkg) pkg done >>= publish_each post (suc k) rest

    -- The clock is read for a missing bulletin (0), the history (1), its key (2) and its row (3).
    unfoldable pub publish_cdn_batch :
        (post : String → ℕ → VerifiedPackage → Reply) → Action Store ApiError Value
    unfolding publish_each
    publish_cdn_batch post = do
      queue ← reads (λ s. map_err internal (read_cdn_queue node world s))
      let queue = take 50 queue
      publish_url ← reads (λ s. map_err internal (cdn_publish_url node (world.now 0) s))
      done ←
          raising internal
            (publish_each (post publish_url) 0 queue record { published = []; failed = [] })
      raising internal (
          write_batch_history (world.now 2) (world.now 3) "cdn-publish-history" (
            json (
              ("batchType", string "cdn-publish")
              ∷ ("processedAt", string (p.time_text (world.now 1)))
              ∷ ("attemptedCount", natural (length queue))
              ∷ ("publishedDids", texts done.published)
              ∷ ("failed", array (items done.failed))
              ∷ [])))
      pure (
          json (
            ("status", string (if is_empty done.failed then "ok" else "partial"))
            ∷ ("attemptedCount", natural (length queue))
            ∷ ("publishedCount", natural (length done.published))
            ∷ ("publishedDids", texts done.published)
            ∷ ("failed", array (items done.failed))
            ∷ []))

    -- One batch for each active discovery node that there are items for. The clock is read from
    -- `clock` on, twice for each batch.
    unfoldable pub discovery_batches :
        (clock : ℕ)
        → String
        → List Value
        → Map DiscoveryAuthorizationState
        → List Value
        → List Value
    unfolding items_for
    discovery_batches clock manifest_url queue [] batches = batches
    discovery_batches clock manifest_url queue ((did, auth) ∷ nodes) batches =
        let skipped = discovery_batches clock manifest_url queue nodes batches in
        let found = items_for auth queue in
        let number = length batches in
        let batch = json (
          (
            "notificationBatchId",
            string (
                "discovery-batch-"
                ++ (decimal (world.now (clock + 2 * number) / 1_000_000)
                    ++ ("-" ++ decimal (number + 1)))),
          )
          ∷ ("rootDid", string node.root_did)
          ∷ ("targetDiscoveryDid", string did)
          ∷ ("authorizedDomains", texts auth.authorized_domains)
          ∷ ("items", array (items found))
          ∷ ("cdnManifestUrl", string manifest_url)
          ∷ ("createdAt", string (p.time_text (world.now (clock + 2 * number + 1))))
          ∷ []) in
        let taken = discovery_batches clock manifest_url queue nodes (push batches batch) in
        if auth.status == "active" && not (is_empty found) then taken else skipped

    -- What is done once the batches are made. The clock is read for the history (1), its key (2)
    -- and its row (3).
    unfoldable pub close_notification : (queue batches : List Value) → Action Store ApiError Value
    close_notification queue batches = do
      raising internal (mark_discovery_queue_notified queue)
      raising internal (
          write_batch_history (world.now 2) (world.now 3) "discovery-notify-history" (
            json (
              ("batchType", string "discovery-notify")
              ∷ ("processedAt", string (p.time_text (world.now 1)))
              ∷ ("sourceItemCount", natural (length queue))
              ∷ ("targetBatchCount", natural (length batches))
              ∷ [])))
      pure (
          json (
            ("status", string "ok")
            ∷ ("notificationMode", string "domain-filtered-batch")
            ∷ ("sourceItemCount", natural (length queue))
            ∷ ("targetBatchCount", natural (length batches))
            ∷ ("batches", array (items batches))
            ∷ []))

    -- The clock is read for a missing bulletin (0) and the batches (from 4 on).
    unfoldable pub notify_discovery_batch : Action Store ApiError Value
    unfolding discovery_batches close_notification
    notify_discovery_batch = do
      queue ← reads (λ s. map_err internal (read_discovery_queue node world s))
      a ← gets (current_authorizations node)
      manifest_url ← gets (λ s. unwrap_or (cdn_manifest_url node (world.now 0) s) "")
      close_notification queue (discovery_batches 4 manifest_url queue a.discovery_nodes [])
