-- ===== src/Network/Domains.antt =====
-- The domains that `update_discovery_domains` of services/root-node/src/main.rs gives to a node, as
-- services/discovery-node/src/main.rs reads them.
use mathlib.Core.List.{◌++◌}
use open_agenet.Base.{
  String, Bool, ◌≡◌, refl, ap, sym, ◌∙◌, true, Option, none, some, List, [], ◌∷◌, arith, ok, Result-cases, Option-cases, inl, inr, eq_refl, map, map-append, filter_map, find_last,
}
use open_agenet.Bulletin.{
  discovery_node_domains_updated, event_type_text, BulletinEvent, Bulletin, event_value, bulletin_value,
}
use open_agenet.Crypto.Crates.{Primitives}
use open_agenet.Discovery.{is_about, discovery_authorized_domains, events_of}
use open_agenet.Json.{
  Time, Value, at, get, find_field, fields_of, insert_field, as_array, as_str, is_text,
}
use open_agenet.Network.Events.{events_of-bulletin_value, sign_core-subject}
use open_agenet.Network.Publication.{read_new_bulletin}
use open_agenet.Root.{Store, Node, World}
use open_agenet.Root.Authorize.{domains_in, update_entry, update_discovery_domains}
use open_agenet.Root.Events.{next_core, append_event}
use open_agenet.Root.Events.Growth.{Appended, append_event-Appended}
use open_agenet.Root.Files.{read_bulletin, current_authorizations, write_authorizations}
use open_agenet.Base.Maps.{lookup}

-- What a node reads of the payload: without an array, every domain.
abbrev pub domains_of : Value → List String
domains_of payload = elim (as_array (at payload "authorizedDomains")) [
  | none ↦ "*" ∷ []
  | some domains ↦ filter_map as_str domains
]

abbrev read_domains : Option Value → List String
read_domains none = "*" ∷ []
read_domains (some event) = domains_of (at event "payload")

find_last-newest :
    {A : Type 0} (test : A → Bool) (old : List A) (x : A)
    → test x ≡ true
    → find_last test (old ++ x ∷ []) ≡ some x
find_last-newest test [] x h = rw h refl
find_last-newest test (y ∷ old) x h = rw (find_last-newest test old x h) refl

module _ ⦃p : Primitives⦄ where
  is_about-event_value :
      (event : BulletinEvent)
      → event.core.event_type ≡ discovery_node_domains_updated
      → is_about event.core.subject_did "DISCOVERY_NODE_DOMAINS_UPDATED" (event_value event) ≡ true
  unfolding event_value event_type_text at get find_field fields_of insert_field
  is_about-event_value event h = rw h (rw (eq_refl event.core.subject_did) refl)

  payload-event_value : (event : BulletinEvent) → at (event_value event) "payload" ≡ event.core.payload
  unfolding event_value at get find_field fields_of insert_field
  payload-event_value event = refl

  newest_domains :
      (b : Bulletin) (old : List BulletinEvent) (event : BulletinEvent)
      → b.events ≡ old ++ event ∷ []
      → event.core.event_type ≡ discovery_node_domains_updated
      → discovery_authorized_domains (bulletin_value b) event.core.subject_did
        ≡ domains_of event.core.payload
  unfolding discovery_authorized_domains
  newest_domains b old event grown updated =
      let found : find_last (is_about event.core.subject_did "DISCOVERY_NODE_DOMAINS_UPDATED")
            (events_of (bulletin_value b))
          ≡ some (event_value event) =
        ap (find_last (is_about event.core.subject_did "DISCOVERY_NODE_DOMAINS_UPDATED"))
          (events_of-bulletin_value b ∙ ap (map event_value) grown ∙ map-append event_value old (event ∷ []))
        ∙ find_last-newest _ (map event_value old) (event_value event)
            (is_about-event_value event updated) in
      ap read_domains found ∙ ap domains_of (payload-event_value event)

  update_entry_bulletin :
      (node : Node) (world : World) (did : String) (domains : List String) (s : Store)
      → (update_entry node world did domains s).1.bulletin_file ≡ s.bulletin_file
  unfolding update_entry write_authorizations
  update_entry_bulletin node world did domains s =
      elim (Option-cases (lookup did (current_authorizations node s).discovery_nodes)) [
        | inl e ↦ ground (arith, e)
        | inr (entry, e) ↦ ground (arith, e)
      ]

  -- If the root has updated the domains of a node, then it can read its bulletin, and a discovery
  -- node with that identifier reads its domains from the bulletin's JSON as the texts of the array
  -- in the payload, or as every domain if the payload has no such array.
  pub update_discovery_domains-discovery_authorized_domains :
      (node : Node) (world : World) (opened : Time) (did : String) (payload v : Value)
      (s s' : Store)
      → update_discovery_domains node world did payload s ≡ (ok v, s')
      → (b : Bulletin) × (read_bulletin node opened s' ≡ ok b)
        × (discovery_authorized_domains (bulletin_value b) did ≡ domains_of payload)
  unfolding update_discovery_domains
  update_discovery_domains-discovery_authorized_domains node world opened did payload v s s' h =
      let m =
        append_event node world (world.now 0) (world.now 1) discovery_node_domains_updated did
          payload s in
      elim (Result-cases m.0) [
        | inr (f, e) ↦ absurd (ground (arith, e, h))
        | inl (event, e) ↦
            let added =
              append_event-Appended node world (world.now 0) (world.now 1)
                discovery_node_domains_updated did payload s m.1 event (ap (λ o. (o, m.1)) e) in
            let core =
              sign_core-subject node.signing_key
                (next_core node added.old discovery_node_domains_updated did payload (world.now 1))
                event added.signed in
            let b : Bulletin = record added.old { events = added.old.events ++ event ∷ [] } in
            let rest : update_entry node world did (domains_in payload) m.1 ≡ (ok v, s') =
              ground (arith, e, h) in
            let kept : s'.bulletin_file ≡ m.1.bulletin_file =
              sym (ap (λ o. o.1.bulletin_file) rest)
              ∙ update_entry_bulletin node world did (domains_in payload) m.1 in
            let read : read_bulletin node opened s' ≡ ok b =
              read_new_bulletin node opened s' b (kept ∙ ap (λ x. x.bulletin_file) added.left) in
            let shown = newest_domains b added.old.events event refl (ap (λ c. c.event_type) core) in
            (
              b,
              read,
              ap (discovery_authorized_domains (bulletin_value b)) (sym (ap (λ c. c.subject_did) core))
                ∙ shown
                ∙ ap (λ c. domains_of c.payload) core,
            )
      ]
