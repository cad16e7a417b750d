-- ===== src/Network/Events.antt =====
-- The events of crates/oan-bulletin/src/lib.rs in the JSON that a discovery node gets of them.
use mathlib.Core.List.{◌++◌}
use open_agenet.Base.{◌≡◌, refl, ap, true, List, [], ◌∷◌, arith, ok, eq_refl, any, map}
use open_agenet.Bulletin.{
  BulletinEventCore, BulletinEvent, Bulletin, event_value, bulletin_value, sign_core,
}
use open_agenet.Core.Json.{did_document_serialize}
use open_agenet.Crypto.Crates.{Primitives}
use open_agenet.Discovery.{events_of, is_proof_event}
use open_agenet.Json.{Value, at, get, find_field, fields_of, insert_field, items, values}
use open_agenet.Package.{metadata_serialize}

values-items : (vs : List Value) → values (items vs) ≡ vs
values-items [] = refl
values-items (v ∷ vs) = ap (λ ws. v ∷ ws) (values-items vs)

module _ ⦃p : Primitives⦄ where
  pub events_of-bulletin_value :
      (b : Bulletin) → events_of (bulletin_value b) ≡ map event_value b.events
  unfolding bulletin_value at get find_field fields_of insert_field
  events_of-bulletin_value b = values-items (map event_value b.events)

  -- An event of the bulletin proves a package about its subject that carries its hash.
  is_proof_event-event_value :
      (event : BulletinEvent)
      → is_proof_event event.event_hash event.core.subject_did (event_value event) ≡ true
  unfolding event_value at get find_field fields_of insert_field
  is_proof_event-event_value event =
      rw (eq_refl event.event_hash) (rw (eq_refl event.core.subject_did) refl)

  pub any-newest :
      (old : List BulletinEvent) (event : BulletinEvent)
      → any
          (is_proof_event event.event_hash event.core.subject_did)
          (map event_value (old ++ event ∷ []))
        ≡ true
  any-newest [] event = rw (is_proof_event-event_value event) refl
  any-newest (e ∷ old) event = ground (arith, any-newest old event)

  pub sign_core-subject :
      (key : p.SigningKey) (core : BulletinEventCore) (event : BulletinEvent)
      → sign_core key core ≡ ok event
      → event.core ≡ core
  unfolding sign_core
  sign_core-subject key core event h = ground (arith, h)
