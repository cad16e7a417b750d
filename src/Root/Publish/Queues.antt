-- ===== src/Root/Publish/Queues.antt =====
-- The queue of packages of services/root-node/src/main.rs has one package for each agent.
use open_agenet.Base.{String, Bool, List, ◌==◌, retain}
use open_agenet.Package.{VerifiedPackage}

abbrev pub is_of : String → VerifiedPackage → Bool
is_of did pkg = pkg.did == did

-- The packages of one agent.
abbrev pub packages_of : String → List VerifiedPackage → List VerifiedPackage
packages_of did queue = retain (is_of did) queue
