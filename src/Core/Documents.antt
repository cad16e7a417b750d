-- ===== src/Core/Documents.antt =====
-- `DidDocument::validate_mvp` of crates/oan-core/src/lib.rs.
use open_agenet.Base.{
  String, ◌≡◌, refl, ◌≢◌, ◌↔◌, true, false, not, List, [], ◌∷◌, arith, ◌==◌, eq_iff, is_empty,
  Result, ok, ◌>>◌, require, contains,
}
use open_agenet.Core.{DidDocument}

pub data DidDocumentError : Type 0 where
  empty_id missing_did_core_context missing_verification_method : DidDocumentError
  missing_authentication missing_assertion_method : DidDocumentError

abbrev pub did_core_context : String
did_core_context = "https://www.w3.org/ns/did/v1"

unfoldable pub validate_mvp : DidDocument → Result DidDocumentError (Unit {0})
validate_mvp d = do
  require (not (d.id == "")) empty_id
  require (contains did_core_context d.context) missing_did_core_context
  require (not (is_empty d.verification_method)) missing_verification_method
  require (not (is_empty d.authentication)) missing_authentication
  require (not (is_empty d.assertion_method)) missing_assertion_method

-- What a document needs to take part in the network.
pub record IsComplete (d : DidDocument) : Type 0 where
  pub named : d.id ≢ ""
  pub in_did_core : contains did_core_context d.context ≡ true
  pub has_method : d.verification_method ≢ []
  pub can_log_in : d.authentication ≢ []
  pub can_assert : d.assertion_method ≢ []

pub is_empty-eq-false {ℓ} : {A : Type ℓ} (xs : List A) → xs ≢ [] → is_empty xs ≡ false
is_empty-eq-false [] h = absurd (h refl)
is_empty-eq-false (x ∷ xs) h = refl

-- A document passes exactly when it has an id, the DID core context, and at least one verification
-- method, authentication method and assertion method.
pub validate_mvp_iff : (d : DidDocument) → (validate_mvp d ≡ ok tt) ↔ IsComplete d
unfolding validate_mvp
validate_mvp_iff d = (
  λ h. record {
    named = ground (arith, eq_iff d.id "");
    in_did_core = ground arith;
    has_method = ground arith;
    can_log_in = ground arith;
    can_assert = ground arith;
  },
  λ c. ground (
    arith,
    eq_iff d.id "",
    is_empty-eq-false d.verification_method,
    is_empty-eq-false d.authentication,
    is_empty-eq-false d.assertion_method,
  ),
)
