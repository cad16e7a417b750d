-- ===== src/Root/Authorize/Revoked.antt =====
-- What the revocation of a node changes, services/root-node/src/main.rs.
use mathlib.Core.Option
use open_agenet.Storage.{holds}
use open_agenet.Root.Steps.{read_bulletin-events}
use open_agenet.Base.{
  subst, sym, ◌∙◌, eq_refl, String, Option-cases, eq_iff, ◌≡◌, refl, some, [], ◌∷◌, ◌++◌, arith,
  ◌==◌, ap, any-append, ok, Result-cases, inl, inr, if◌then◌else◌,
}
use open_agenet.Base.Maps.{lookup, lookup-insert, Map}
use open_agenet.Bulletin.{
  core_hash, BulletinEventCore, Bulletin, BulletinEvent, node_revoked, sign_core,
}
use open_agenet.Crypto.Crates.{Primitives}
use open_agenet.Json.{Time, Value}
use open_agenet.Root.{Store, Node, World}
use open_agenet.Root.Authorize.{
  change, revoked_node, without_authorization, revoke_node, revoke_authorization_state,
}
use open_agenet.Root.Events.{append_event}
use open_agenet.Root.Events.Growth.{append_event-Appended}
use open_agenet.Root.Files.{
  load_authorization_state, read_bulletin, current_authorizations, write_authorizations,
}
use open_agenet.Protocol.{VerifyAndPublishRequest}
use open_agenet.Root.Requests.{verify_request, is_active_registrar, was_authorized, was_revoked}

-- `get_mut`: the entry of the node changes, if there is one, and no other.
pub lookup-change :
    {V : Type 0} (did other : String) (f : V → V) (m : Map V)
    → lookup other (change did f m)
      ≡ (if did == other then Option.map f (lookup did m) else lookup other m)
unfolding change
lookup-change did other f m = elim (Option-cases (lookup did m)) [
  | inl found ↦ ground (arith, eq_iff did other, found)
  | inr (entry, found) ↦ rw found (ground (arith, lookup-insert did other (f entry) m))
]

module _ ⦃p : Primitives⦄ (node : Node) (world : World) where
  -- The store that a revocation leaves.
  abbrev revoked_store : String → Bulletin → BulletinEvent → Store → Store
  revoked_store did b event s = record s {
    bulletin_file = some (holds (record b { events = b.events ++ event ∷ [] }));
    authorization_file = some (
        holds (
          without_authorization (world.now 2, world.now 3, world.now 4) did
            (current_authorizations node s)));
  }

  sign_core-core :
      (c : BulletinEventCore) (event : BulletinEvent)
      → sign_core node.signing_key c ≡ ok event
      → event.core ≡ c
  unfolding sign_core
  sign_core-core c event h = elim (Result-cases (core_hash c)) [
    | inl (hash, e) ↦ ground (arith, e)
    | inr (f, e) ↦ absurd (ground (arith, e))
  ]

  -- What a revocation that ended well has done.
  revoke_node_steps :
      (did : String) (payload v : Value) (s s' : Store)
      → revoke_node node world did payload s ≡ (ok v, s')
      → (b : Bulletin) × (event : BulletinEvent) × (read_bulletin node (world.now 0) s ≡ ok b)
        × (event.core.event_type ≡ node_revoked)
        × ◌≡◌ {A = Store} s' (revoked_store did b event s)
  unfolding revoke_node revoke_authorization_state write_authorizations current_authorizations
      load_authorization_state
  revoke_node_steps did payload v s s' h =
      let m = append_event node world (world.now 0) (world.now 1) node_revoked did payload s in
      elim (Result-cases m.0) [
        | inl (event, e) ↦
            let a =
              append_event-Appended node world (world.now 0) (world.now 1) node_revoked did payload
                s m.1 event (ground arith) in
            (
              a.old,
              event,
              a.was,
              ap (λ c. c.event_type) (sign_core-core _ event a.signed),
              subst
                  (λ t. ◌≡◌ {A = Store} s' (record t {
                    authorization_file = some (
                        holds (
                          without_authorization (world.now 2, world.now 3, world.now 4) did
                            (current_authorizations node t)));
                  }))
                  a.left (ground arith),
            )
        | inr (f, e) ↦ absurd (ground arith)
      ]

  -- An event of another kind does not count for or against a registrar.
  active_same :
      (b c : Bulletin) (event : BulletinEvent) (did : String)
      → event.core.event_type ≡ node_revoked
      → b.events ≡ c.events
      → is_active_registrar (record b { events = b.events ++ event ∷ [] }) did
        ≡ is_active_registrar c did
  active_same b c event did kind same = ground (
    arith,
    any-append (was_authorized did) b.events (event ∷ []),
    any-append (was_revoked did) b.events (event ∷ []),
    kind,
    same,
  )

  -- Once `revoke_node` has ended well, the file of authorizations says "revoked" of the node
  -- wherever it had an entry as a registrar, and yet `verify_request` decides every request, the
  -- node's own ones included, as it did before, if the bulletin could be read.
  pub revoke_node-verify_request :
      (did : String) (payload v : Value) (s s' : Store) (opened : Time) (b : Bulletin)
      (r : VerifyAndPublishRequest)
      → revoke_node node world did payload s ≡ (ok v, s')
      → read_bulletin node opened s ≡ ok b
      → (lookup did (current_authorizations node s').registrars
          ≡ Option.map
              (revoked_node (world.now 2))
              (lookup did (current_authorizations node s).registrars))
        × (verify_request node world opened r s' ≡ verify_request node world opened r s)
  unfolding verify_request read_bulletin current_authorizations load_authorization_state
      without_authorization
  revoke_node-verify_request did payload v s s' opened b r h read =
      let (old, event, was, kind, left) = revoke_node_steps did payload v s s' h in
      (
        subst
            (λ t.
              lookup did (current_authorizations node t).registrars
              ≡ Option.map (revoked_node (world.now 2))
                  (lookup did (current_authorizations node s).registrars))
            (sym left)
            (lookup-change did did (revoked_node (world.now 2))
                (current_authorizations node s).registrars
              ∙ rw (eq_refl did) refl),
        subst (λ t. verify_request node world opened r t ≡ verify_request node world opened r s)
            (sym left)
            (rw read (
              rw
                (active_same old b event r.registrar_did kind
                  (read_bulletin-events node (world.now 0) opened s old b was read))
                refl)),
      )
