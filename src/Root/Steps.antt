-- ===== src/Root/Steps.antt =====
-- The handlers of services/root-node/src/main.rs as steps of one machine, and what every step does
-- to the bulletin, be it refused or not.
pub mod Writes
pub mod Publishing
pub mod Authorizing
pub mod Batching
pub mod Runs
use open_agenet.Base.{
  Bool, true, false, ℕ, ◌+◌, String, ◌≡◌, refl, sym, ap, ◌∙◌, subst, List, [], ◌∷◌, ◌++◌,
  append_assoc, append-nil, Result, ok, err, arith, Result-cases, Option-cases, inl, inr, length,
}
use open_agenet.Base.Action.Keeps.{Composes, Keeps}
use open_agenet.Bulletin.{BulletinEvent, BulletinEventType, Bulletin, verify_hash_chain}
use open_agenet.Bulletin.Chain.{verify_hash_chain_iff}
use open_agenet.Bulletin.Growth.{IsChain-append}
use open_agenet.Crypto.Crates.{Primitives, SigningLaws}
use open_agenet.Json.{Time, Value}
use open_agenet.Root.{Store, Node, World}
use open_agenet.Root.Events.{append_event, next_core}
use open_agenet.Root.Events.Growth.{HasChain, Appended, append_event-Appended, append_event_fails}
use open_agenet.Root.Files.{read_bulletin, load_nonce_store}
use open_agenet.Root.Requests.Nonces.{is_seen}

module _ ⦃p : Primitives⦄ (node : Node) where
  -- The later store's bulletin has the earlier one's events first, and passes the check if that
  -- one did; no nonce is forgotten.
  pub record Extends (s s' : Store) : Type 0 where
    pub chain : HasChain node s → HasChain node s'
    pub longer :
        (opened : Time) (b : Bulletin)
        → read_bulletin node opened s ≡ ok b
        → (b' : Bulletin) × (more : List BulletinEvent) × (read_bulletin node opened s' ≡ ok b')
          × (b'.events ≡ b.events ++ more)
    pub remembers : (nonce : String) → is_seen s nonce ≡ true → is_seen s' nonce ≡ true

  pub same_file-Extends :
      (s s' : Store)
      → (s'.bulletin_file ≡ s.bulletin_file)
        × ((nonce : String) → is_seen s nonce ≡ true → is_seen s' nonce ≡ true)
      → Extends s s'
  unfolding read_bulletin
  same_file-Extends s s' (same, kept) = record {
    chain = λ h opened b read. h opened b (ground arith);
    longer = λ opened b read. (b, [], ground arith, sym (append-nil b.events));
    remembers = kept;
  }

  pub Extends-Composes : Composes Extends
  Extends-Composes = record {
    same = λ s. same_file-Extends s s (refl, λ n h. h);
    after = λ h k. record {
      chain = λ c. k.chain (h.chain c);
      longer = λ opened b read.
          let (b', more, read', e) = h.longer opened b read in
          let (b'', more', read'', e') = k.longer opened b' read' in
          (
            b'',
            more ++ more',
            read'',
            e' ∙ ap (λ es. es ++ more') e ∙ append_assoc b.events more more',
          );
      remembers = λ nonce seen. k.remembers nonce (h.remembers nonce seen);
    };
  }

  -- The time at which a missing bulletin is made does not show in its events.
  pub read_bulletin-events :
      (opened opened' : Time) (s : Store) (b b' : Bulletin)
      → read_bulletin node opened s ≡ ok b
      → read_bulletin node opened' s ≡ ok b'
      → b.events ≡ b'.events
  unfolding read_bulletin
  read_bulletin-events opened opened' s b b' h k = elim (Option-cases s.bulletin_file) [
    | inl missing ↦ ground (arith, missing)
    | inr (f, there) ↦ ground (arith, there)
  ]

  Appended-Extends :
      SigningLaws p
      → (world : World) (opened created : Time) (event_type : BulletinEventType)
        (subject_did : String) (payload : Value) (s s' : Store) (event : BulletinEvent)
      → Appended node world opened created event_type subject_did payload s s' event
      → Extends s s'
  unfolding read_bulletin load_nonce_store
  Appended-Extends laws world opened created event_type subject_did payload s s' event a =
      let c = next_core node a.old event_type subject_did payload created in
      subst (Extends s) (sym a.left) (record {
        chain = λ h opened' b read.
            subst (λ x. verify_hash_chain (p.verifying_key node.signing_key) x ≡ ok tt)
              (ground arith)
              ((verify_hash_chain_iff (p.verifying_key node.signing_key)
                  (record a.old { events = a.old.events ++ event ∷ [] })).1
                (IsChain-append laws node.signing_key a.old c
                  ((verify_hash_chain_iff (p.verifying_key node.signing_key) a.old).0
                    (h opened a.old a.was))
                  refl refl a.signed));
        longer = λ opened' b read. (
          record a.old { events = a.old.events ++ event ∷ [] },
          event ∷ [],
          refl,
          ap (λ es. es ++ event ∷ []) (read_bulletin-events opened opened' s a.old b a.was read),
        );
        remembers = λ nonce seen. seen;
      })

  pub append_event-Extends :
      SigningLaws p
      → (world : World) (opened created : Time) (event_type : BulletinEventType)
        (subject_did : String) (payload : Value)
      → Keeps Extends (append_event node world opened created event_type subject_did payload)
  append_event-Extends laws world opened created event_type subject_did payload = record {
    kept = λ s.
        let m = append_event node world opened created event_type subject_did payload in
        elim (Result-cases (m s).0) [
          | inl (event, e) ↦
              Appended-Extends laws world opened created event_type subject_did payload s (m s).1
                event
                (append_event-Appended node world opened created event_type subject_did payload s
                  (m s).1 event (ground arith))
          | inr (f, e) ↦
              subst (Extends s)
                (sym (
                  append_event_fails node world opened created event_type subject_did payload s f
                    e))
                (same_file-Extends s s (refl, λ nonce seen. seen))
        ];
  }
