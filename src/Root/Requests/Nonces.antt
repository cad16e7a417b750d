-- ===== src/Root/Requests/Nonces.antt =====
-- `verify_request_nonce` of services/root-node/src/main.rs: a nonce is taken once.
use open_agenet.Base.{
  String, ◌≡◌, refl, Bool, true, false, some, arith, ◌==◌, is_some, ok, err, Result-cases,
  Option-cases, Bool-cases, inl, inr,
}
use open_agenet.Base.Maps.{Map, lookup, insert, lookup-insert, lookup-insert_self}
use open_agenet.Crypto.Crates.{Primitives}
use open_agenet.Json.{Time}
use open_agenet.Protocol.{VerifyAndPublishRequest}
use open_agenet.Root.{Store, Node, World}
use open_agenet.Root.Files.{load_nonce_store, save_nonce_store}
use open_agenet.Root.Requests.{verify_request_nonce}

-- Whether the file of nonces can be read and has this one.
abbrev pub is_seen : Store → String → Bool
is_seen s nonce = elim (load_nonce_store s) [
  | ok stored ↦ is_some (lookup nonce stored.nonces)
  | err failure ↦ false
]

kept_by_insert :
    {V : Type 0} (k n : String) (v : V) (m : Map V)
    → is_some (lookup n m) ≡ true
    → is_some (lookup n (insert k v m)) ≡ true
kept_by_insert k n v m h =
    rw (lookup-insert k n v m) (elim (Bool-cases (k == n)) [ inl e ↦ rw e refl | inr e ↦ rw e h ])

module _ ⦃p : Primitives⦄ (node : Node) (world : World) where
  pub verify_request_nonce-remembers :
      (seen : Time) (r : VerifyAndPublishRequest) (s : Store) (nonce : String)
      → is_seen s nonce ≡ true
      → is_seen (verify_request_nonce node world seen r s).1 nonce ≡ true
  unfolding verify_request_nonce save_nonce_store load_nonce_store
  verify_request_nonce-remembers seen r s nonce was = elim (Option-cases r.request_nonce) [
    | inl e ↦ ground (arith, e)
    | inr (n, e) ↦ elim (Result-cases (load_nonce_store s)) [
      | inl (stored, f) ↦ ground (arith, e, f, kept_by_insert n nonce seen stored.nonces)
      | inr (failure, f) ↦ ground (arith, e, f)
    ]
  ]

  -- An accepted nonce is in the file.
  pub verify_request_nonce-is_seen :
      (seen : Time) (r : VerifyAndPublishRequest) (s s' : Store) (nonce : String)
      → r.request_nonce ≡ some nonce
      → verify_request_nonce node world seen r s ≡ (ok tt, s')
      → is_seen s' nonce ≡ true
  unfolding verify_request_nonce save_nonce_store load_nonce_store
  verify_request_nonce-is_seen seen r s s' nonce e h = elim (Result-cases (load_nonce_store s)) [
    | inl (stored, f) ↦ ground (arith, e, f, h, lookup-insert_self nonce seen stored.nonces)
    | inr (failure, f) ↦ absurd (ground (arith, e, f, h))
  ]

  -- A nonce that the file has is refused, and nothing is written.
  pub verify_request_nonce_replayed :
      (seen : Time) (r : VerifyAndPublishRequest) (s : Store) (nonce : String)
      → r.request_nonce ≡ some nonce
      → is_seen s nonce ≡ true
      → verify_request_nonce node world seen r s ≡ (err "replayed_request_nonce", s)
  unfolding verify_request_nonce
  verify_request_nonce_replayed seen r s nonce e was = elim (Result-cases (load_nonce_store s)) [
    | inl (stored, f) ↦ ground (arith, e, f)
    | inr (failure, f) ↦ absurd (ground (arith, e, f))
  ]
