-- ===== src/Bulletin/Growth.antt =====
-- What an appended event does to the chain that `verify_hash_chain` of
-- crates/oan-bulletin/src/lib.rs accepts, and which error it reports.
use mathlib.Core.Option
use open_agenet.Base.{
  ℕ, ◌+◌, String, ◌≡◌, refl, sym, ◌∙◌, subst, Option, none, some, List, [], ◌∷◌, ◌++◌, arith,
  length, last, ok, err, Result-cases, inl, inr,
}
use open_agenet.Crypto.{sign_bytes}
use open_agenet.Crypto.Crates.{Primitives, SigningLaws}
use open_agenet.Crypto.Signing.{verify_bytes-sign_bytes}
use open_agenet.Bulletin.{
  BulletinError, BulletinEventCore, BulletinEvent, Bulletin, core_hash, sign_core, verify_event,
  verify_from, verify_hash_chain,
}
use open_agenet.Bulletin.Chain.{Fits, Chain, IsChain, verify_event_iff}

-- The hash that the next event has to point to.
abbrev pub last_hash : Option String → List BulletinEvent → Option String
last_hash previous_hash [] = previous_hash
last_hash previous_hash (event ∷ events) = last_hash (some event.event_hash) events

-- `bulletin.events.last().map(|event| event.event_hash.clone())`.
abbrev pub newest_hash : List BulletinEvent → Option String
newest_hash events = Option.map (λ e. e.event_hash) (last events)

last_hash-last :
    (previous_hash : Option String) (event : BulletinEvent) (events : List BulletinEvent)
    → last_hash previous_hash (event ∷ events) ≡ newest_hash (event ∷ events)
last_hash-last previous_hash event [] = refl
last_hash-last previous_hash event (next ∷ events) =
    last_hash-last (some event.event_hash) next events

pub last_hash-newest_hash :
    (events : List BulletinEvent) → last_hash none events ≡ newest_hash events
last_hash-newest_hash [] = refl
last_hash-newest_hash (event ∷ events) = last_hash-last none event events

module _ ⦃p : Primitives⦄ where
  open p use {SigningKey, VerifyingKey, verifying_key}

  Chain-append :
      (key : VerifyingKey) (index : ℕ) (previous_hash : Option String) (events : List BulletinEvent)
      (event : BulletinEvent)
      → Chain key index previous_hash events
      → Fits key (index + length events) (last_hash previous_hash events) event
      → Chain key index previous_hash (events ++ event ∷ [])
  Chain-append key index previous_hash [] event c f = (
    record {
      numbered = omega (arith, f.numbered);
      linked = f.linked;
      hashed = f.hashed;
      signed = f.signed;
    },
    tt,
  )
  Chain-append key index previous_hash (e ∷ events) event c f = (
    c.0,
    Chain-append key (index + 1) (some e.event_hash) events event c.1 (record {
      numbered = omega (arith, f.numbered);
      linked = f.linked;
      hashed = f.hashed;
      signed = f.signed;
    }),
  )

  -- What `sign` makes fits, if the key's crate keeps `SigningLaws`.
  pub sign_core-Fits :
      SigningLaws p
      → (key : SigningKey) (c : BulletinEventCore) {event : BulletinEvent}
      → sign_core key c ≡ ok event
      → (index : ℕ) (previous_hash : Option String) → c.sequence ≡ index + 1
      → c.previous_hash ≡ previous_hash
      → Fits (verifying_key key) index previous_hash event
  unfolding sign_core
  sign_core-Fits laws key c {event} signed index previous_hash s l =
      elim (Result-cases (core_hash c)) [
        | inl (h, e) ↦
            let made : ◌≡◌ {A = BulletinEvent}
                (record { core = c; event_hash = h; signature = sign_bytes key h }) event =
              ground arith in
            subst (Fits (verifying_key key) index previous_hash) made (record {
              numbered = s;
              linked = l;
              hashed = e;
              signed = verify_bytes-sign_bytes laws key h;
            })
        | inr (f, e) ↦ absurd (ground arith)
      ]

  -- An event that is signed over the next number and the newest hash keeps the chain.
  pub IsChain-append :
      SigningLaws p
      → (key : SigningKey) (bulletin : Bulletin) (c : BulletinEventCore) {event : BulletinEvent}
      → IsChain (verifying_key key) bulletin
      → c.sequence ≡ length bulletin.events + 1
      → c.previous_hash ≡ newest_hash bulletin.events
      → sign_core key c ≡ ok event
      → IsChain (verifying_key key) (record bulletin { events = bulletin.events ++ event ∷ [] })
  IsChain-append laws key bulletin c {event} chain s l signed =
      Chain-append (verifying_key key) 0 none bulletin.events event chain (
        sign_core-Fits laws key c signed (0 + length bulletin.events) _ (omega (arith, s))
          (l ∙ sym (last_hash-newest_hash bulletin.events)))

  verify_from-first_bad :
      (key : VerifyingKey) (index : ℕ) (previous_hash : Option String) (good : List BulletinEvent)
      (bad : BulletinEvent) (more : List BulletinEvent) (e : BulletinError) (place : ℕ)
      → Chain key index previous_hash good
      → place ≡ index + length good
      → verify_event key place (last_hash previous_hash good) bad ≡ err e
      → verify_from key index previous_hash (good ++ bad ∷ more) ≡ err e
  unfolding verify_from
  verify_from-first_bad key index previous_hash [] bad more e place c at h =
      let q : index ≡ place = omega arith in rw q (rw h)
  verify_from-first_bad key index previous_hash (event ∷ good) bad more e place c at h =
      rw ((verify_event_iff key index previous_hash event).1 c.0) (
        verify_from-first_bad key (index + 1) (some event.event_hash) good bad more e place c.1
          (omega arith) h)

  -- The error that `verify_hash_chain` reports is that of the first event that does not fit.
  pub verify_hash_chain-first_bad :
      (key : VerifyingKey) (bulletin : Bulletin) (good : List BulletinEvent) (bad : BulletinEvent)
      (more : List BulletinEvent) (e : BulletinError)
      → bulletin.events ≡ good ++ bad ∷ more
      → Chain key 0 none good
      → verify_event key (length good) (newest_hash good) bad ≡ err e
      → verify_hash_chain key bulletin ≡ err e
  unfolding verify_hash_chain
  verify_hash_chain-first_bad key bulletin good bad more e split c h = rw split (
      verify_from-first_bad key 0 none good bad more e (length good) c (omega arith)
        (rw last_hash-newest_hash h))
