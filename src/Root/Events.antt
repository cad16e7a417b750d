-- ===== src/Root/Events.antt =====
-- `append_event` of services/root-node/src/main.rs, the one way the bulletin grows.
pub mod Growth
use open_agenet.Base.{ℕ, ◌+◌, String, List, [], ◌∷◌, ◌++◌, length, map_err}
use open_agenet.Base.Action.{Action, pure, lift, reads, ◌>>=◌, ◌>>◌}
use open_agenet.Bulletin.{BulletinEventType, BulletinEventCore, BulletinEvent, Bulletin, sign_core}
use open_agenet.Bulletin.Growth.{newest_hash}
use open_agenet.Crypto.Crates.{Primitives}
use open_agenet.Json.{Time, Value}
use open_agenet.Root.{Failure, bulletin, Store, Node, World}
use open_agenet.Root.Files.{read_bulletin, write_bulletin}

module _ ⦃p : Primitives⦄ (node : Node) where
  -- The event that comes next on a bulletin.
  abbrev pub next_core : Bulletin → BulletinEventType → String → Value → Time → BulletinEventCore
  next_core b event_type subject_did payload created_at = record {
    sequence = length b.events + 1;
    previous_hash = newest_hash b.events;
    event_type = event_type;
    subject_did = subject_did;
    actor_did = node.root_did;
    payload = payload;
    created_at = created_at;
  }

  -- The times are those at which a missing bulletin and the event are made.
  unfoldable pub append_event :
      World → Time → Time → BulletinEventType → String → Value → Action Store Failure BulletinEvent
  append_event world opened created event_type subject_did payload = do
    b ← reads (read_bulletin node opened)
    event ← lift (
        map_err bulletin
          (sign_core node.signing_key (next_core b event_type subject_did payload created)))
    write_bulletin node world (record b { events = b.events ++ event ∷ [] })
    pure event
