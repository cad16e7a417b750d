-- ===== src/Core/Json.antt =====
-- The derived `Serialize` of the types of crates/oan-core/src/lib.rs: the field names of their
-- `serde` attributes, with a field that is `None` left out where the attribute says so.
use open_agenet.Base.{ℕ, String, Option, none, some, List, [], ◌∷◌, ◌++◌, map}
use open_agenet.Json.{Value, number, unsigned, string, array, items, json, texts, Serialize}
use open_agenet.Core.{
  SubjectType, agent, infrastructure_node, VerificationMethod, ServiceEndpoint, AddressBinding,
  AgentDescription, AnsMetadata, DidDocument,
}

-- `skip_serializing_if = "Option::is_none"`.
abbrev pub present {ℓ} : {A : Type ℓ} → String → (A → Value) → Option A → List (String × Value)
present k f none = []
present k f (some a) = (k, f a) ∷ []

abbrev pub natural : ℕ → Value
natural n = number (unsigned n)

pub subject_type_value : SubjectType → Value
subject_type_value agent = string "agent"
subject_type_value infrastructure_node = string "infrastructure-node"

pub verification_method_value : VerificationMethod → Value
verification_method_value m = json (
    ("id", string m.id)
    ∷ ("type", string m.method_type)
    ∷ ("controller", string m.controller)
    ∷ (present "publicKeyMultibase" string m.public_key_multibase
        ++ present "publicKeyJwk" (λ v. v) m.public_key_jwk))

unfoldable pub service_endpoint_value : ServiceEndpoint → Value
service_endpoint_value s = json (
    ("id", string s.id)
    ∷ ("type", string s.service_type)
    ∷ ("serviceEndpoint", string s.service_endpoint)
    ∷ (present "version" string s.version
        ++ (present "protocol" string s.protocol
            ++ (present "serverType" string s.server_type ++ present "port" natural s.port))))

pub address_binding_value : AddressBinding → Value
address_binding_value b = json (
    ("id", string b.id)
    ∷ ("addressType", string b.address_type)
    ∷ ("network", string b.network)
    ∷ ("address", string b.address)
    ∷ ("controller", string b.controller)
    ∷ ("purpose", string b.purpose)
    ∷ [])

pub agent_description_value : AgentDescription → Value
agent_description_value d = json (
    ("capabilityDescription", string d.capability_description)
    ∷ ("capabilityTags", texts d.capability_tags)
    ∷ ("useCaseExamples", texts d.use_case_examples)
    ∷ [])

pub ans_metadata_value : AnsMetadata → Value
unfolding subject_type_value address_binding_value agent_description_value
ans_metadata_value m = json (
    ("subjectType", subject_type_value m.subject)
    ∷ ("identityType", string m.identity_type)
    ∷ (present "ttl" natural m.ttl
        ++ (("addressBindings", array (items (map address_binding_value m.address_bindings)))
            ∷ (present "agentDescription" agent_description_value m.agent_description
                ++ (present "servicePolicy" string m.service_policy
                    ++ (present "networkScope" string m.network_scope ++ m.extra))))))

unfoldable pub did_document_value : DidDocument → Value
unfolding verification_method_value service_endpoint_value ans_metadata_value
did_document_value d = json (
    ("@context", texts d.context)
    ∷ ("id", string d.id)
    ∷ ("verificationMethod", array (items (map verification_method_value d.verification_method)))
    ∷ ("authentication", texts d.authentication)
    ∷ ("assertionMethod", texts d.assertion_method)
    ∷ ("service", array (items (map service_endpoint_value d.service)))
    ∷ present "ansMetadata" ans_metadata_value d.ans_metadata)

instance abbrev pub did_document_serialize : Serialize DidDocument
did_document_serialize = record { to_value = λ d. some (did_document_value d) }
