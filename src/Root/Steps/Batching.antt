-- ===== src/Root/Steps/Batching.antt =====
-- The batches of services/root-node/src/main.rs and the bulletin.
use open_agenet.Base.{
  ℕ, take, suc, String, refl, List, [], ◌∷◌, arith, map_err, unwrap_or, Option-cases, inl, inr,
}
use open_agenet.Base.Action.Keeps.{
  Composes, Keeps, pure-Keeps, gets-Keeps, reads-Keeps, raising-Keeps, if-Keeps, bind-Keeps,
  then-Keeps,
}
use open_agenet.Crypto.Crates.{Primitives}
use open_agenet.Core.Json.{did_document_serialize}
use open_agenet.Package.{metadata_serialize}
use open_agenet.Json.{Time, Value}
use open_agenet.Package.{VerifiedPackage}
use open_agenet.Root.{Node, World, internal}
use open_agenet.Root.Batches.{
  Reply, answered, unreachable, Progress, is_success, notification_key, close_notification,
  discovery_batches, settle, publish_each, delete_item, delete_items, mark_cdn_queue_published,
  mark_discovery_queue_notified, write_batch_history, publish_cdn_batch, notify_discovery_batch,
}
use open_agenet.Root.Urls.{cdn_publish_url, cdn_manifest_url}
use open_agenet.Root.Files.{read_cdn_queue, read_discovery_queue, current_authorizations}
use open_agenet.Root.Steps.{Extends, Extends-Composes}
use open_agenet.Root.Steps.Writes.{same_file-Keeps, write-Extends}

module _ ⦃p : Primitives⦄ (node : Node) (world : World) where
  abbrev rules : Composes (Extends node)
  rules = Extends-Composes node

  mark_cdn_queue_published-Extends :
      (did : String) → Keeps (Extends node) (mark_cdn_queue_published node world did)
  unfolding mark_cdn_queue_published
  mark_cdn_queue_published-Extends did =
      same_file-Keeps node world (mark_cdn_queue_published node world did)
        (λ s. (ground arith, ground arith))

  write_batch_history-Extends :
      (keyed at_row : Time) (namespace : String) (item : Value)
      → Keeps (Extends node) (write_batch_history node world keyed at_row namespace item)
  unfolding write_batch_history
  write_batch_history-Extends keyed at_row namespace item =
      same_file-Keeps node world (write_batch_history node world keyed at_row namespace item)
        (λ s. (ground arith, ground arith))

  settle-Extends :
      (reply : Reply) (pkg : VerifiedPackage) (done : Progress)
      → Keeps (Extends node) (settle node world reply pkg done)
  unfolding settle
  settle-Extends (unreachable text) pkg done = pure-Keeps rules _
  settle-Extends (answered status) pkg done =
      if-Keeps rules (is_success status)
        (then-Keeps rules (mark_cdn_queue_published-Extends pkg.did) (pure-Keeps rules _))
        (pure-Keeps rules _)

  publish_each-Extends :
      (post : ℕ → VerifiedPackage → Reply) (k : ℕ) (queue : List VerifiedPackage) (done : Progress)
      → Keeps (Extends node) (publish_each node world post k queue done)
  unfolding publish_each
  publish_each-Extends post k [] done = pure-Keeps rules done
  publish_each-Extends post k (pkg ∷ rest) done =
      bind-Keeps rules (settle-Extends (post k pkg) pkg done)
        (publish_each-Extends post (suc k) rest)

  delete_item-Extends : (item : Value) → Keeps (Extends node) (delete_item node world item)
  unfolding delete_item
  delete_item-Extends item = same_file-Keeps node world (delete_item node world item) (λ s.
      elim (Option-cases (notification_key item)) [
        | inl e ↦ (ground (arith, e), ground (arith, e))
        | inr (key, e) ↦ (ground (arith, e), ground (arith, e))
      ])

  delete_items-Extends : (queue : List Value) → Keeps (Extends node) (delete_items node world queue)
  unfolding delete_items
  delete_items-Extends [] = pure-Keeps rules tt
  delete_items-Extends (item ∷ rest) =
      then-Keeps rules (delete_item-Extends item) (delete_items-Extends rest)

  mark_discovery_queue_notified-Extends :
      (queue : List Value) → Keeps (Extends node) (mark_discovery_queue_notified node world queue)
  unfolding mark_discovery_queue_notified
  mark_discovery_queue_notified-Extends queue =
      then-Keeps rules (delete_items-Extends queue)
        (write-Extends node world _ _ (λ s. (refl, refl)))

  pub publish_cdn_batch-Extends :
      (post : String → ℕ → VerifiedPackage → Reply)
      → Keeps (Extends node) (publish_cdn_batch node world post)
  unfolding publish_cdn_batch
  publish_cdn_batch-Extends post =
      bind-Keeps rules (reads-Keeps rules (λ s. map_err internal (read_cdn_queue node world s)))
        (λ queue.
          bind-Keeps rules
            (reads-Keeps rules (λ s. map_err internal (cdn_publish_url node (world.now 0) s)))
            (λ url.
              bind-Keeps rules
                (raising-Keeps rules internal (
                  publish_each-Extends (post url) 0 (take 50 queue)
                    (record { published = []; failed = [] })))
                (λ done.
                  then-Keeps rules
                    (raising-Keeps rules internal (
                      write_batch_history-Extends (world.now 2) (world.now 3) "cdn-publish-history"
                        _))
                    (pure-Keeps rules _))))

  close_notification-Extends :
      (queue batches : List Value)
      → Keeps (Extends node) (close_notification node world queue batches)
  unfolding close_notification
  close_notification-Extends queue batches =
      then-Keeps rules (raising-Keeps rules internal (mark_discovery_queue_notified-Extends queue))
        (then-Keeps rules
          (raising-Keeps rules internal
            (write_batch_history-Extends (world.now 2) (world.now 3) "discovery-notify-history" _))
          (pure-Keeps rules _))

  pub notify_discovery_batch-Extends : Keeps (Extends node) (notify_discovery_batch node world)
  unfolding notify_discovery_batch
  notify_discovery_batch-Extends =
      bind-Keeps rules
        (reads-Keeps rules (λ s. map_err internal (read_discovery_queue node world s)))
        (λ queue. bind-Keeps rules (gets-Keeps rules (current_authorizations node)) (λ a.
          bind-Keeps rules
            (gets-Keeps rules (λ s. unwrap_or (cdn_manifest_url node (world.now 0) s) ""))
            (λ url.
              close_notification-Extends queue
                (discovery_batches node world 4 url queue a.discovery_nodes []))))
