-- ===== src/Tests/Did.antt =====
-- Runs on identifiers and keys.
use open_agenet.Base.{◌≡◌, true, ◌↔◌, ok}
use open_agenet.Crypto.Crates.{Primitives}
use open_agenet.Did.{DidAns, parse}
use open_agenet.Did.Syntax.{IsDid, parse_iff, parse-is_match}
use open_agenet.Did.Syntax.Direct.{is_did, is_did-Compiled}
use open_agenet.Tests.Runs.{agent_did}
use open_agenet.Tests.Toy.{toy}

abbrev agent_id : DidAns
agent_id = record {
  value = agent_did;
  semantic_code = "AGDM";
  suffix = "efbbbbbbbbbbbbbbbbbbbbbbbb";
}

-- Crates that print every key as the alphabet.
abbrev letters : Primitives
letters = record toy { bs58_encode = λ b. "abcdefghijklmnopqrstuvwxyz" }

parse_iff_example :
    (parse is_did agent_did ≡ ok agent_id) ↔ ((agent_id.value ≡ agent_did) × IsDid agent_id)
parse_iff_example = parse_iff is_did is_did-Compiled agent_did agent_id

parse-is_match_example :
    (is_did agent_did ≡ true) ↔ ((d : DidAns) × (parse is_did agent_did ≡ ok d))
parse-is_match_example = parse-is_match is_did is_did-Compiled agent_did
