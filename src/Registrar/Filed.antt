-- ===== src/Registrar/Filed.antt =====
-- The invariant of the draft files of services/registrar-node/src/main.rs, and the handlers as one
-- machine: each request comes with the world in which it is handled.
use open_agenet.Base.{
  Option-cases, String, ◌≡◌, ◌∙◌, sym, ap, some, List, [], ◌∷◌, arith, ◌==◌, eq_iff, Bool-cases,
  inl, inr, ok, unwrap_or, ok_or, subst,
}
use open_agenet.Base.Action.{Action}
use open_agenet.Base.Action.Keeps.{
  Composes, Keeps, pure-Keeps, lift-Keeps, gets-Keeps, reads-Keeps, attempt-Keeps, if-Keeps,
  then-Keeps, bind-Keeps,
}
use open_agenet.Base.Maps.{lookup, insert, lookup-insert}
use open_agenet.Crypto.Crates.{Primitives}
use open_agenet.Json.{Time, Value, json, string}
use open_agenet.Storage.{corrupt, holds, resolve, read}
use open_agenet.Registrar.{DraftRecord, RegisterRequest, ApiError, bad_request, Store, Node, World}
use open_agenet.Registrar.Drafts.{
  draft_value, draft_of, read_draft, new_draft, changed, issued_credential, issued_draft,
  draft_path, stored, write_draft, mirror_sqlite_json, save_draft, api_create_draft,
  api_update_draft, api_issue_registration_credential,
}
use open_agenet.Registrar.Register.{request_of, write_record, register_agent, api_submit_draft}

module _ ⦃p : Primitives⦄ (node : Node) where
  -- Each draft stands in the file that its own identifier names.
  abbrev pub IsFiled : Store → Type 0
  IsFiled s =
      (path : String) (draft : DraftRecord)
      → lookup path s.drafts ≡ some (holds draft)
      → resolve node.data_store (draft_path draft.draft_id) ≡ path

  -- A draft that is read under a name stands in its own file, which is the file of that name.
  pub filed_at :
      (draft_id : String) (s : Store) (draft : DraftRecord)
      → IsFiled s
      → read_draft node draft_id s ≡ ok draft
      → resolve node.data_store (draft_path draft.draft_id)
        ≡ resolve node.data_store (draft_path draft_id)
  unfolding read_draft read
  filed_at draft_id s draft filed found =
      let path = resolve node.data_store (draft_path draft_id) in
      elim (Option-cases (lookup path s.drafts)) [
        | inl e ↦ absurd (ground (arith, e, found))
        | inr (corrupt, e) ↦ absurd (ground (arith, e, found))
        | inr (holds other, e) ↦ filed path draft (ground (arith, e, found))
      ]

  abbrev KeepsFiled : Store → Store → Type 0
  KeepsFiled s s' = IsFiled s → IsFiled s'

  rules : Composes KeepsFiled
  rules = record { same = λ s h. h; after = λ h k filed. k (h filed) }

  module _ (world : World) where
    inserted :
        (draft : DraftRecord) (s : Store)
        → KeepsFiled s (record s {
          drafts =
              insert
                (resolve node.data_store (draft_path draft.draft_id))
                (holds (stored draft))
                s.drafts;
        })
    inserted draft s filed path other found =
        let here = resolve node.data_store (draft_path draft.draft_id) in
        let law = lookup-insert here path (holds (stored draft)) s.drafts in
        elim (Bool-cases (here == path)) [
          | inl e ↦
              let same : draft.draft_id ≡ other.draft_id = ground (arith, e, law, found) in
              ap (λ x. resolve node.data_store (draft_path x)) (sym same) ∙ (eq_iff here path).0 e
          | inr e ↦ filed path other (ground (arith, e, law, found))
        ]

    save_draft-Keeps :
        (at_row : Time) (draft : DraftRecord)
        → Keeps KeepsFiled (save_draft node world at_row draft)
    unfolding write_draft mirror_sqlite_json
    save_draft-Keeps at_row draft = then-Keeps rules (attempt-Keeps rules _ _ _ (inserted draft)) (
        if-Keeps rules node.has_sqlite (attempt-Keeps rules _ _ _ (λ s h. h)) (pure-Keeps rules tt))

    api_create_draft-Keeps :
        (payload : Value) → Keeps KeepsFiled (api_create_draft node world payload)
    unfolding api_create_draft
    api_create_draft-Keeps payload =
        then-Keeps rules
          (save_draft-Keeps (world.now 1) (draft_of node world (world.now 0) payload))
          (pure-Keeps rules _)

    api_update_draft-Keeps :
        (draft_id : String) (payload : Value)
        → Keeps KeepsFiled (api_update_draft node world draft_id payload)
    unfolding api_update_draft
    api_update_draft-Keeps draft_id payload =
        bind-Keeps rules
          (gets-Keeps rules
            (λ s. unwrap_or (read_draft node draft_id s) (new_draft node world draft_id payload)))
          (λ draft.
            then-Keeps rules (save_draft-Keeps (world.now 3) (changed node world payload draft)) (
              pure-Keeps rules (
                json (
                  ("status", string "updated")
                  ∷ ("draft", draft_value (changed node world payload draft))
                  ∷ []))))

    issue-Keeps :
        (draft_id : String)
        → Keeps KeepsFiled (api_issue_registration_credential node world draft_id)
    unfolding api_issue_registration_credential
    issue-Keeps draft_id = bind-Keeps rules (reads-Keeps rules (read_draft node draft_id)) (λ draft.
        bind-Keeps rules (lift-Keeps rules (issued_credential node world draft)) (λ signed.
          then-Keeps rules (save_draft-Keeps (world.now 3) (issued_draft node world draft signed))
            (pure-Keeps rules _)))

    register_agent-drafts :
        (r : RegisterRequest) (s : Store) → (register_agent node world r s).1.drafts ≡ s.drafts
    unfolding register_agent write_record mirror_sqlite_json
    register_agent-drafts r s = ground arith

    register_agent-Keeps : (r : RegisterRequest) → Keeps KeepsFiled (register_agent node world r)
    register_agent-Keeps r = record {
      kept = λ s filed path draft found.
          filed path draft
            (subst (λ m. lookup path m ≡ some (holds draft)) (register_agent-drafts r s) found);
    }

    api_submit_draft-Keeps :
        (draft_id : String) → Keeps KeepsFiled (api_submit_draft node world draft_id)
    unfolding api_submit_draft
    api_submit_draft-Keeps draft_id =
        bind-Keeps rules (reads-Keeps rules (read_draft node draft_id)) (λ draft.
          bind-Keeps rules
            (lift-Keeps rules (ok_or draft.did_document (bad_request "draft_missing_did_document")))
            (λ document.
              bind-Keeps rules
                (lift-Keeps rules (
                  ok_or draft.registration_credential
                    (bad_request "draft_missing_registration_credential")))
                (λ credential.
                  register_agent-Keeps (request_of node world draft document credential))))

-- The requests that change the registrar's files.
pub data Request : Type 0 where
  create : Value → Request
  update : String → Value → Request
  issue submit : String → Request
  register : RegisterRequest → Request

module _ ⦃p : Primitives⦄ (node : Node) where
  unfoldable pub handle : World → Request → Action Store ApiError Value
  handle world (create payload) = api_create_draft node world payload
  handle world (update draft_id payload) = api_update_draft node world draft_id payload
  handle world (issue draft_id) = api_issue_registration_credential node world draft_id
  handle world (submit draft_id) = api_submit_draft node world draft_id
  handle world (register r) = register_agent node world r

  -- The store after the requests, each in its own world, whatever their results are.
  unfoldable pub serve : List (World × Request) → Store → Store
  unfolding handle
  serve [] s = s
  serve ((world, request) ∷ rest) s = serve rest (handle world request s).1

  handle-IsFiled :
      (world : World) (request : Request) (s : Store)
      → IsFiled node s
      → IsFiled node (handle world request s).1
  unfolding handle
  handle-IsFiled world (create payload) s h = (api_create_draft-Keeps node world payload).kept s h
  handle-IsFiled world (update draft_id payload) s h =
      (api_update_draft-Keeps node world draft_id payload).kept s h
  handle-IsFiled world (issue draft_id) s h = (issue-Keeps node world draft_id).kept s h
  handle-IsFiled world (submit draft_id) s h = (api_submit_draft-Keeps node world draft_id).kept s h
  handle-IsFiled world (register r) s h = (register_agent-Keeps node world r).kept s h

  -- If each draft stands in the file that its own identifier names, then so it is after any requests
  -- to the registrar, be they answered or refused, with writes that fail at any place.
  pub serve-IsFiled :
      (requests : List (World × Request)) (s : Store)
      → IsFiled node s
      → IsFiled node (serve requests s)
  unfolding serve
  serve-IsFiled [] s h = h
  serve-IsFiled ((world, request) ∷ rest) s h =
      serve-IsFiled rest (handle world request s).1 (handle-IsFiled world request s h)
