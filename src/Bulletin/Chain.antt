-- ===== src/Bulletin/Chain.antt =====
-- `Bulletin::verify_hash_chain` of crates/oan-bulletin/src/lib.rs against a description of the
-- chain that it accepts.
use open_agenet.Base.{
  ℕ, ◌+◌, String, ◌≡◌, refl, ◌↔◌, Option, none, some, List, [], ◌∷◌, arith, eq_iff, same_text_iff,
  ok, first_step, Result-cases, inl, inr, eq_refl,
}
use open_agenet.Crypto.{verify_bytes}
use open_agenet.Crypto.Crates.{Primitives}
use open_agenet.Bulletin.{
  BulletinEvent, Bulletin, core_hash, verify_event, verify_from, verify_hash_chain,
}

module _ ⦃p : Primitives⦄ where
  open p use {VerifyingKey}

  -- The event stands at this index, points to the hash before it, carries its own hash and is
  -- signed by the key.
  pub record Fits (key : VerifyingKey) (index : ℕ) (previous_hash : Option String)
      (event : BulletinEvent) : Type 0 where
    pub numbered : event.core.sequence ≡ index + 1
    pub linked : event.core.previous_hash ≡ previous_hash
    pub hashed : core_hash event.core ≡ ok event.event_hash
    pub signed : verify_bytes key event.event_hash event.signature ≡ ok tt

  abbrev pub Chain : VerifyingKey → ℕ → Option String → List BulletinEvent → Type 0
  Chain key index previous_hash [] = Unit
  Chain key index previous_hash (event ∷ events) =
      Fits key index previous_hash event × Chain key (index + 1) (some event.event_hash) events

  abbrev pub IsChain : VerifyingKey → Bulletin → Type 0
  IsChain key bulletin = Chain key 0 none bulletin.events

  pub verify_event_iff :
      (key : VerifyingKey) (index : ℕ) (previous_hash : Option String) (event : BulletinEvent)
      → (verify_event key index previous_hash event ≡ ok tt) ↔ Fits key index previous_hash event
  unfolding verify_event
  verify_event_iff key index previous_hash event = (
    λ h. elim (Result-cases (core_hash event.core)) [
      | inl (computed, e) ↦ record {
        numbered = ground arith;
        linked = ground (arith, same_text_iff event.core.previous_hash previous_hash);
        hashed = ground (arith, eq_iff computed event.event_hash);
        signed = ground arith;
      }
      | inr (failure, e) ↦ absurd (ground arith)
    ],
    λ f. ground (
      arith,
      f.numbered,
      f.linked,
      f.hashed,
      f.signed,
      same_text_iff event.core.previous_hash previous_hash,
      eq_refl event.event_hash,
    ),
  )

  pub verify_from_iff :
      (key : VerifyingKey) (index : ℕ) (previous_hash : Option String) (events : List BulletinEvent)
      → (verify_from key index previous_hash events ≡ ok tt) ↔ Chain key index previous_hash events
  unfolding verify_from
  verify_from_iff key index previous_hash [] = (λ _. tt, λ _. refl)
  verify_from_iff key index previous_hash (event ∷ events) =
      let (to, from) = verify_event_iff key index previous_hash event in
      let (to_rest, from_rest) = verify_from_iff key (index + 1) (some event.event_hash) events in
      (
        λ h. let (a, rest, first) = first_step _ _ h in (to first, to_rest rest),
        λ c. rw (from c.0) (from_rest c.1),
      )

  -- `verify_hash_chain` accepts exactly the bulletins whose events are numbered from 1, point each
  -- to the hash of the one before, carry their own hash and are signed by the root.
  pub verify_hash_chain_iff :
      (key : VerifyingKey) (bulletin : Bulletin)
      → (verify_hash_chain key bulletin ≡ ok tt) ↔ IsChain key bulletin
  unfolding verify_hash_chain
  verify_hash_chain_iff key bulletin = verify_from_iff key 0 none bulletin.events
