-- ===== src/Root/Events/Growth.antt =====
-- What `append_event` of services/root-node/src/main.rs does to the bulletin.
use open_agenet.Base.{String, ◌≡◌, some, [], ◌∷◌, ◌++◌, arith, ok, err, Result-cases, inl, inr}
use open_agenet.Bulletin.{BulletinEventType, BulletinEvent, Bulletin, sign_core, verify_hash_chain}
use open_agenet.Crypto.Crates.{Primitives}
use open_agenet.Json.{Time, Value}
use open_agenet.Root.{Store, Node, World}
use open_agenet.Root.Events.{next_core, append_event}
use open_agenet.Root.Files.{read_bulletin, write_bulletin}
use open_agenet.Storage.{holds}

module _ ⦃p : Primitives⦄ (node : Node) where
  -- The bulletin that the file holds, or an empty one for no file, passes the check.
  abbrev pub HasChain : Store → Type 0
  HasChain s =
      (opened : Time) (b : Bulletin)
      → read_bulletin node opened s ≡ ok b
      → verify_hash_chain (p.verifying_key node.signing_key) b ≡ ok tt

  module _ (world : World) where
    -- What a call that ended with an event has done: the event is the next one, and the file holds
    -- the bulletin with it at the end.
    pub record Appended (opened created : Time) (event_type : BulletinEventType)
        (subject_did : String) (payload : Value) (s s' : Store) (event : BulletinEvent)
        : Type 0 where
      pub old : Bulletin
      pub was : read_bulletin node opened s ≡ ok old
      pub signed :
          sign_core node.signing_key (next_core node old event_type subject_did payload created)
          ≡ ok event
      pub left : ◌≡◌ {A = Store} s' (record s {
        bulletin_file = some (holds (record old { events = old.events ++ event ∷ [] }));
      })

    pub append_event-Appended :
        (opened created : Time) (event_type : BulletinEventType) (subject_did : String)
        (payload : Value) (s s' : Store) (event : BulletinEvent)
        → append_event node world opened created event_type subject_did payload s ≡ (ok event, s')
        → Appended opened created event_type subject_did payload s s' event
    unfolding append_event write_bulletin
    append_event-Appended opened created event_type subject_did payload s s' event h =
        elim (Result-cases (read_bulletin node opened s)) [
          | inl (b, read) ↦
              elim (Result-cases (
                sign_core node.signing_key
                  (next_core node b event_type subject_did payload created))) [
                    | inl (e, made) ↦ record {
                      old = b;
                      was = read;
                      signed = ground arith;
                      left = ground arith;
                    }
                    | inr (f, failed) ↦ absurd (ground arith)
                  ]
          | inr (f, failed) ↦ absurd (ground arith)
        ]

    -- A call that fails leaves the store as it was.
    pub append_event_fails :
        (opened created : Time) (event_type : BulletinEventType) (subject_did : String)
        (payload : Value) (s : Store)
        → ((f : _)
            → (append_event node world opened created event_type subject_did payload s).0 ≡ err f
            → (append_event node world opened created event_type subject_did payload s).1 ≡ s)
    unfolding append_event write_bulletin
    append_event_fails opened created event_type subject_did payload s f h = ground arith
