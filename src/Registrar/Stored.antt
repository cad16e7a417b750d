-- ===== src/Registrar/Stored.antt =====
-- What the draft handlers of services/registrar-node/src/main.rs leave in the files.
use open_agenet.Base.{ℕ, String, ◌≡◌, arith, ◌==◌, ok, if◌then◌else◌}
use open_agenet.Base.Maps.{lookup-insert}
use open_agenet.Crypto.Crates.{Primitives}
use open_agenet.Storage.{holds, resolve, read}
use open_agenet.Registrar.{DraftRecord, Store, Node, World}
use open_agenet.Registrar.Drafts.{
  draft_path, stored, read_draft, write_draft, mirror_sqlite_json, save_draft,
}

module _ ⦃p : Primitives⦄ (node : Node) (world : World) where
  -- A draft that is saved is read under its name, and under each name that has the same file.
  pub saved :
      (at_row : ℕ) (draft_id : String) (draft : DraftRecord) (s s' : Store)
      → save_draft node world at_row draft s ≡ (ok tt, s')
      → (read_draft node draft_id s' ≡ (
          if resolve node.data_store (draft_path draft.draft_id)
            == resolve node.data_store (draft_path draft_id)
          then ok (stored draft)
          else read_draft node draft_id s))
        × (s'.own_document ≡ s.own_document)
        × (s'.records ≡ s.records)
  unfolding read_draft write_draft mirror_sqlite_json read
  saved at_row draft_id draft s s' h =
      let path = resolve node.data_store (draft_path draft.draft_id) in
      let wanted = resolve node.data_store (draft_path draft_id) in
      let found = lookup-insert path wanted (holds (stored draft)) s.drafts in
      ground (arith, h, found)
