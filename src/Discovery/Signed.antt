-- ===== src/Discovery/Signed.antt =====
-- The signature of an answer of services/discovery-node/src/main.rs.
use open_agenet.Base.{refl, subst, ℕ, String, ◌≡◌, some, arith, inl, inr, ok, Result-cases}
use open_agenet.Crypto.{hash_json, sign_bytes, verify_bytes}
use Prim.Native.String.{◌++◌}
use open_agenet.Discovery.Query.{candidates}
use open_agenet.Crypto.Crates.{Primitives, SigningLaws}
use open_agenet.Crypto.Signing.{verify_bytes-sign_bytes}
use open_agenet.Discovery.Answer.{
  read_indexed_packages, signed_part, sign_discovery_response, unsigned_response, answer_of, query,
}
use open_agenet.Discovery.Sync.{Store, Node, World}
use open_agenet.Json.{Number, value_serialize}
use open_agenet.Protocol.{DiscoveryQuery, DiscoveryResponse, DiscoveryResponseProof}

module _ ⦃p : Primitives⦄ (quarters : ℕ → Number) where
  -- The signature of an answer fits a key, and the proof in it carries the same signature.
  abbrev pub IsSigned : p.VerifyingKey → DiscoveryResponse → Type 0
  IsSigned key r =
      ((hash : String) × (hash_json (signed_part quarters r) ≡ ok hash)
        × (verify_bytes key hash r.signature ≡ ok tt))
      × (proof : DiscoveryResponseProof) × (r.proof ≡ some proof)
      × (proof.proof_value ≡ r.signature)
      × (proof.creator ≡ r.discovery_did ++ "#key-1")

  sign_discovery_response_lem :
      SigningLaws p
      → (signing_key : p.SigningKey) (r : DiscoveryResponse) (signature : String)
      → sign_discovery_response quarters signing_key r ≡ ok signature
      → (hash : String) × (hash_json (signed_part quarters r) ≡ ok hash)
        × (verify_bytes (p.verifying_key signing_key) hash signature ≡ ok tt)
  unfolding sign_discovery_response
  sign_discovery_response_lem laws signing_key r signature h =
      elim (Result-cases (hash_json (signed_part quarters r))) [
        | inr (e, k) ↦ absurd (ground (arith, k, h))
        | inl (hash, k) ↦
            let same : sign_bytes signing_key hash ≡ signature = ground (arith, k, h) in
            (
              hash,
              k,
              subst (λ x. verify_bytes (p.verifying_key signing_key) hash x ≡ ok tt) same
                  (verify_bytes-sign_bytes laws signing_key hash),
            )
      ]

  -- If the key's crate keeps `SigningLaws`, then every answer to a query passes the check of its
  -- signature with the node's public key, over the hash of the part of the answer that is signed;
  -- and the answer carries a proof with the same signature, made by the first key of the identifier
  -- that the answer names.
  pub query-IsSigned :
      SigningLaws p
      → (node : Node) (world : World) (signing_key : p.SigningKey) (q : DiscoveryQuery) (s : Store)
        (response : DiscoveryResponse)
      → query quarters node world signing_key q s ≡ ok response
      → IsSigned (p.verifying_key signing_key) response
  unfolding query signed_part
  query-IsSigned laws node world signing_key q s response h =
      elim (Result-cases (read_indexed_packages node world s)) [
        | inr (e, r) ↦ absurd (ground (arith, r, h))
        | inl (packages, r) ↦
            let unsigned =
              unsigned_response quarters node world signing_key (candidates packages q) in
            elim (Result-cases (sign_discovery_response quarters signing_key unsigned)) [
              | inr (e, k) ↦ absurd (ground (arith, r, k, h))
              | inl (signature, k) ↦
                  let same : answer_of quarters node world signing_key unsigned signature
                      ≡ response =
                    ground (arith, r, k, h) in
                  subst (IsSigned (p.verifying_key signing_key)) same (
                    sign_discovery_response_lem laws signing_key unsigned signature k,
                    _,
                    refl,
                    refl,
                    refl,
                  )
            ]
      ]
