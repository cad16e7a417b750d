-- ===== src/Root/Steps/Runs.antt =====
-- Runs of the handlers of services/root-node/src/main.rs, with a clock, a disk and a database that
-- may differ from step to step.
use open_agenet.Base.{
  ℕ, String, ◌≡◌, true, some, none, subst, arith, inl, inr, Result-cases, ok, err,
}
use open_agenet.Bulletin.{Bulletin, verify_from, verify_hash_chain}
use open_agenet.Crypto.Crates.{Primitives, SigningLaws}
use open_agenet.Json.{Time, Value}
use open_agenet.Package.{VerifiedPackage}
use open_agenet.Protocol.{VerifyAndPublishRequest, RootAuthorizeRequest}
use open_agenet.Root.{bad_request, VerifyResponse, Store, Node, World}
use open_agenet.Root.Authorize.{
  authorize_registrar, authorize_discovery, update_discovery_domains, revoke_node,
}
use open_agenet.Root.Batches.{Reply, publish_cdn_batch, notify_discovery_batch}
use open_agenet.Root.Events.Growth.{HasChain}
use open_agenet.Root.Files.{read_bulletin}
use open_agenet.Root.Publish.{verify_and_publish}
use open_agenet.Root.Requests.{verify_request_nonce, verify_request_signature}
use open_agenet.Root.Requests.Nonces.{
  is_seen, verify_request_nonce-is_seen, verify_request_nonce_replayed,
}
use open_agenet.Root.Steps.{read_bulletin-events, Extends, Extends-Composes}
use open_agenet.Root.Steps.Authorizing.{
  authorize_registrar-Extends, authorize_discovery-Extends, revoke_node-Extends,
  update_discovery_domains-Extends,
}
use open_agenet.Root.Steps.Batching.{publish_cdn_batch-Extends, notify_discovery_batch-Extends}
use open_agenet.Root.Steps.Publishing.{publish-Extends, verify_and_publish-Extends}

module _ ⦃p : Primitives⦄ (node : Node) where
  -- One handler, whatever it answers.
  pub data Step : Store → Store → Type 0 where
    published :
        (w : World) (r : VerifyAndPublishRequest) (s : Store)
        → Step s (verify_and_publish node w r s).1
    registrar_joined :
        (w : World) (r : RootAuthorizeRequest) (s : Store)
        → Step s (authorize_registrar node w r s).1
    discovery_joined :
        (w : World) (r : RootAuthorizeRequest) (s : Store)
        → Step s (authorize_discovery node w r s).1
    domains_changed :
        (w : World) (did : String) (payload : Value) (s : Store)
        → Step s (update_discovery_domains node w did payload s).1
    revoked :
        (w : World) (did : String) (payload : Value) (s : Store)
        → Step s (revoke_node node w did payload s).1
    cdn_batch :
        (w : World) (post : String → ℕ → VerifiedPackage → Reply) (s : Store)
        → Step s (publish_cdn_batch node w post s).1
    discovery_batch : (w : World) (s : Store) → Step s (notify_discovery_batch node w s).1

  pub data Run : Store → Store → Type 0 where
    start : {s : Store} → Run s s
    next : {s t u : Store} → Run s t → Step t u → Run s u

  Step-Extends : SigningLaws p → {s t : Store} → Step s t → Extends node s t
  Step-Extends laws (published w r s) = (verify_and_publish-Extends node w laws r).kept s
  Step-Extends laws (registrar_joined w r s) = (authorize_registrar-Extends node w laws r).kept s
  Step-Extends laws (discovery_joined w r s) = (authorize_discovery-Extends node w laws r).kept s
  Step-Extends laws (domains_changed w did payload s) =
      (update_discovery_domains-Extends node w laws did payload).kept s
  Step-Extends laws (revoked w did payload s) = (revoke_node-Extends node w laws did payload).kept s
  Step-Extends laws (cdn_batch w post s) = (publish_cdn_batch-Extends node w post).kept s
  Step-Extends laws (discovery_batch w s) = (notify_discovery_batch-Extends node w).kept s

  Run-Extends : SigningLaws p → {s t : Store} → Run s t → Extends node s t
  Run-Extends laws start = (Extends-Composes node).same _
  Run-Extends laws (next run step) =
      (Extends-Composes node).after (Run-Extends laws run) (Step-Extends laws step)

  -- A readable bulletin that passes the check does so whatever time stands in for a missing one.
  passes-HasChain :
      (opened : Time) (s : Store) (b : Bulletin)
      → read_bulletin node opened s ≡ ok b
      → verify_hash_chain (p.verifying_key node.signing_key) b ≡ ok tt
      → HasChain node s
  unfolding verify_hash_chain
  passes-HasChain opened s b read h opened' b' read' =
      subst (λ es. verify_from (p.verifying_key node.signing_key) 0 none es ≡ ok tt)
        (read_bulletin-events node opened opened' s b b' read read') h

  -- With a signature scheme that accepts its own signatures, no run of the root's handlers, be
  -- they answered or refused, breaks the bulletin: if the bulletin passes the check of the hash
  -- chain with the root's key before the run, then what is read after the run passes it too.
  pub Run-verify_hash_chain :
      SigningLaws p
      → (s t : Store) → Run s t
      → (opened opened' : Time) (b b' : Bulletin) → read_bulletin node opened s ≡ ok b
      → verify_hash_chain (p.verifying_key node.signing_key) b ≡ ok tt
      → read_bulletin node opened' t ≡ ok b'
      → verify_hash_chain (p.verifying_key node.signing_key) b' ≡ ok tt
  Run-verify_hash_chain laws s t run opened opened' b b' read h read' =
      (Run-Extends laws run).chain (passes-HasChain opened s b read h) opened' b' read'

  -- The nonce of a request that was published has been taken.
  published-is_seen :
      SigningLaws p
      → (w : World) (r : VerifyAndPublishRequest) (s s' : Store) (v : VerifyResponse)
        (nonce : String)
      → r.request_nonce ≡ some nonce
      → verify_and_publish node w r s ≡ (ok v, s')
      → is_seen s' nonce ≡ true
  unfolding verify_and_publish
  published-is_seen laws w r s s' v nonce e h =
      let m = verify_request_nonce node w (w.now 0) r s in
      elim (Result-cases m.0) [
        | inl (u, f) ↦
            subst (λ x. is_seen x nonce ≡ true) (ground arith)
              (((publish-Extends node w laws r).kept m.1).remembers nonce
                (verify_request_nonce-is_seen node w (w.now 0) r s m.1 nonce e (ground arith)))
        | inr (failure, f) ↦ absurd (ground arith)
      ]

  -- With a signature scheme that accepts its own signatures: once a request with a nonce has been
  -- published, then after any run of the root's handlers every request with that nonce is refused
  -- as a bad request, and the store stays as it is.
  pub Run-no_replay :
      SigningLaws p
      → (w w' : World) (r r' : VerifyAndPublishRequest) (s s' t : Store) (v : VerifyResponse)
        (nonce : String)
      → r.request_nonce ≡ some nonce
      → r'.request_nonce ≡ some nonce
      → verify_and_publish node w r s ≡ (ok v, s')
      → Run s' t
      → (reason : String) × (verify_and_publish node w' r' t ≡ (err (bad_request reason), t))
  unfolding verify_and_publish
  Run-no_replay laws w w' r r' s s' t v nonce e e' h run =
      let seen =
        (Run-Extends laws run).remembers nonce (published-is_seen laws w r s s' v nonce e h) in
      let refused = verify_request_nonce_replayed node w' (w'.now 0) r' t nonce e' seen in
      elim (Result-cases (verify_request_signature r')) [
        | inl (u, f) ↦ ("replayed_request_nonce", ground (arith, f, refused))
        | inr (reason, f) ↦ (reason, ground (arith, f))
      ]
