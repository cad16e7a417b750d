-- ===== src/Tests/Bulletin.antt =====
-- Runs on the bulletin of a root node.
use open_agenet.Base.{ℕ, ◌≡◌, refl, none, [], ◌∷◌, ◌↔◌, ok, err, unwrap_or}
use open_agenet.Base.Texts.{decimal}
use open_agenet.Bulletin.{
  BulletinEventCore, BulletinEvent, Bulletin, sequence_mismatch, root_initialized, sign_core,
  core_hash, core_value, event_type_text, verify_event, verify_hash_chain,
}
use open_agenet.Bulletin.Chain.{IsChain, verify_hash_chain_iff}
use open_agenet.Bulletin.Growth.{IsChain-append, verify_hash_chain-first_bad}
use open_agenet.Crypto.{hash_json, canonical_json, canonical_json_value, sha256_hex, sign_bytes}
use open_agenet.Json.{null, fields_of, insert_field}
use open_agenet.Tests.Runs.{no_bulletin}
use open_agenet.Tests.Toy.{toy, toy-SigningLaws}

abbrev core_of : ℕ → BulletinEventCore
core_of n = record {
  sequence = n;
  previous_hash = none;
  event_type = root_initialized;
  subject_did = "did";
  actor_did = "did";
  payload = null;
  created_at = 0;
}

abbrev unsigned : ℕ → BulletinEvent
unsigned n = record { core = core_of n; event_hash = ""; signature = "" }

abbrev event_of : ℕ → BulletinEvent
event_of n = unwrap_or (sign_core ⦃p = toy⦄ tt (core_of n)) (unsigned n)

abbrev one_event : Bulletin
one_event = record no_bulletin { events = event_of 1 ∷ [] }

signed : sign_core ⦃p = toy⦄ tt (core_of 1) ≡ ok (event_of 1)
unfolding sign_core core_hash core_value hash_json canonical_json canonical_json_value sha256_hex
    fields_of insert_field decimal event_type_text sign_bytes
signed = refl

verify_hash_chain_iff_example :
    (verify_hash_chain ⦃p = toy⦄ tt one_event ≡ ok tt) ↔ IsChain ⦃p = toy⦄ tt one_event
verify_hash_chain_iff_example = verify_hash_chain_iff ⦃p = toy⦄ tt one_event

IsChain-append_example : IsChain ⦃p = toy⦄ tt one_event
IsChain-append_example =
    IsChain-append ⦃p = toy⦄ toy-SigningLaws tt no_bulletin (core_of 1) {event = event_of 1} tt refl
      refl signed

misnumbered : verify_event ⦃p = toy⦄ tt 0 none (unsigned 2) ≡ err (sequence_mismatch 0 1 2)
unfolding verify_event
misnumbered = refl

verify_hash_chain-first_bad_example :
    verify_hash_chain ⦃p = toy⦄ tt (record no_bulletin { events = unsigned 2 ∷ event_of 1 ∷ [] })
    ≡ err (sequence_mismatch 0 1 2)
verify_hash_chain-first_bad_example =
    verify_hash_chain-first_bad ⦃p = toy⦄ tt
      (record no_bulletin { events = unsigned 2 ∷ event_of 1 ∷ [] }) [] (unsigned 2)
      (event_of 1 ∷ []) (sequence_mismatch 0 1 2) refl tt misnumbered
