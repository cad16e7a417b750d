-- ===== src/Core/Tags/Domains.antt =====
-- `matches_authorized_domains` of crates/oan-core/src/lib.rs: which packages a discovery node may
-- index, and which notifications it gets.
use open_agenet.Base.{String, ◌≡◌, ◌⊎◌, List, Some}
use open_agenet.Core.Tags.{CapabilityTagTree, normalized}
use open_agenet.Core.Tags.Ancestors.{Under}

-- Some capability lies under some domain, both read through the aliases.
abbrev pub Covered : CapabilityTagTree → List String → List String → Type 0
Covered t capabilities domains =
    Some
      (λ c. Some (λ d. (normalized t d ≡ "*") ⊎ Under t (normalized t d) (normalized t c)) domains)
      capabilities
