-- ===== src/Root/Steps/Writes.antt =====
-- The single writes of the root node's handlers and the bulletin.
use open_agenet.Base.{sym, subst, String, ◌≡◌, true}
use open_agenet.Base.Action.{Action}
use open_agenet.Base.Action.Keeps.{Composes, Keeps, pure-Keeps, attempt-Keeps, if-Keeps}
use open_agenet.Crypto.Crates.{Primitives}
use open_agenet.Core.Json.{did_document_serialize}
use open_agenet.Package.{metadata_serialize}
use open_agenet.Root.{Store, Node, World}
use open_agenet.Root.Files.{write_data, statement, load_nonce_store}
use open_agenet.Root.Requests.Nonces.{is_seen}
use open_agenet.Root.Steps.{Extends, same_file-Extends, Extends-Composes}

module _ ⦃p : Primitives⦄ (node : Node) (world : World) where
  abbrev rules : Composes (Extends node)
  rules = Extends-Composes node

  pub other_files-Extends :
      (s s' : Store)
      → (s'.bulletin_file ≡ s.bulletin_file) × (s'.nonce_file ≡ s.nonce_file)
      → Extends node s s'
  unfolding load_nonce_store
  other_files-Extends s s' (same, kept) = same_file-Extends node s s' (
    same,
    λ nonce seen. subst (λ f. is_seen (record s { nonce_file = f }) nonce ≡ true) (sym kept) seen,
  )

  -- A handler that leaves the file alone.
  pub same_file-Keeps :
      {A E : Type 0} (m : Action Store E A)
      → ((s : Store)
          → ((m s).1.bulletin_file ≡ s.bulletin_file) × ((m s).1.nonce_file ≡ s.nonce_file))
      → Keeps (Extends node) m
  same_file-Keeps m same = record { kept = λ s. other_files-Extends s (m s).1 (same s) }

  -- A write to a file other than the bulletin's.
  pub write-Extends :
      (path : String) (f : Store → Store)
      → ((s : Store) → ((f s).bulletin_file ≡ s.bulletin_file) × ((f s).nonce_file ≡ s.nonce_file))
      → Keeps (Extends node) (write_data node world path f)
  write-Extends path f same = attempt-Keeps rules _ _ _ (λ s. other_files-Extends s (f s) (same s))

  pub statement-Extends :
      (namespace : String) (f : Store → Store)
      → ((s : Store) → ((f s).bulletin_file ≡ s.bulletin_file) × ((f s).nonce_file ≡ s.nonce_file))
      → Keeps (Extends node) (statement node world namespace f)
  statement-Extends namespace f same =
      if-Keeps rules node.has_sqlite
        (attempt-Keeps rules _ _ _ (λ s. other_files-Extends s (f s) (same s)))
        (pure-Keeps rules tt)
