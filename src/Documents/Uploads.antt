-- ===== src/Documents/Uploads.antt =====
-- What an upload leaves, on every path through `upload_document`.
use saas_genai_starter.Common.{
  ℕ, ◌≤◌, ◌<◌, ◌≡◌, refl, ap, ◌∙◌, ◌⊎◌, inl, inr, Bool, true, false, not, Bool-cases, some, List,
  [], ◌∷◌, ◌++◌, String, ◌+s◌, ◌/◌, ◌*◌, ltb, ◌==◌, text_in, All, arith,
}
use saas_genai_starter.Core.Errors.{api_error}
use saas_genai_starter.Core.Action.{Result, ok, err, crash, pure, raise_if, ◌>>◌}
use saas_genai_starter.Core.Scoped.{find, add}
use saas_genai_starter.Tenants.Context.{TenantContext}
use saas_genai_starter.Usage.Session.{commit}
use saas_genai_starter.Documents.Models.{Document, documents}
use saas_genai_starter.Documents.Ingestion.{DocumentDb, commit_all, rollback}
use saas_genai_starter.Documents.Router.{
  BlobStorage, UploadFile, Site, allowed_mime_types, text_or, new_document, job_of, unsupported,
  closing, on_store, set_tables, commit_site, enqueue, store_upload, upload_document,
}

abbrev pub is_ok : {A : Type 0} → Result A → Bool
is_ok (ok a) = true
is_ok (err e) = false
is_ok (crash t) = false

module _ {V W Data : Type 0} (blobs : BlobStorage W Data) (size : Data → ℕ)
    (uuid_text decimal : ℕ → String) (max_bytes : ℕ) (tenant : TenantContext)
    (file : UploadFile Data) (id : ℕ) (s : Site V W) where
  -- The file passes the checks of its type and its size.
  abbrev pub Acceptable : Type 0
  Acceptable =
      (text_in (text_or file.content_type "application/octet-stream") allowed_mime_types ≡ true)
      × (0 < size file.content)
      × (size file.content ≤ max_bytes)

  abbrev pub made : Document
  made = new_document size uuid_text tenant file id

  -- The database with the new row, committed.
  abbrev pub with_row : DocumentDb V
  with_row = commit_all (record s.db {
    tables = record s.db.tables {
      documents =
          add documents tenant.organization_id (new_document size uuid_text tenant file id)
            s.db.tables.documents;
    };
  })

  -- The storage is as it was, or as the failed save of an acceptable file left it.
  abbrev pub Unsaved : W → Type 0
  Unsaved w =
      (w ≡ s.store)
      ⊎ (Acceptable
          × (r : Result (Unit {0})) × (is_ok r ≡ false)
          × (blobs.save made.storage_path file.content s.store ≡ (r, w)))

  -- No row, no job, and no blob but what a failed save left.
  abbrev pub Refused : Result Document × Site V W → Type 0
  Refused x =
      (is_ok x.0 ≡ false) × (x.1.db ≡ rollback s.db) × (x.1.jobs ≡ s.jobs) × Unsaved x.1.store

  -- The row is committed and the blob is saved; the job is in the queue exactly where the request
  -- succeeds.
  abbrev pub Stored : Result Document × Site V W → Type 0
  Stored x =
      Acceptable
      × (x.1.db ≡ with_row)
      × (blobs.save made.storage_path file.content s.store ≡ (ok tt, x.1.store))
      × (((x.0 ≡ ok made) × (x.1.jobs ≡ s.jobs ++ job_of tenant made ∷ []))
          ⊎ ((is_ok x.0 ≡ false) × (x.1.jobs ≡ s.jobs)))

  Open : Result Document × Site V W → Type 0
  Open x =
      ((is_ok x.0 ≡ false)
        × (rollback x.1.db ≡ rollback s.db)
        × (x.1.jobs ≡ s.jobs)
        × Unsaved x.1.store)
      ⊎ Stored x

  closed :
      (x : Result Document × Site V W)
      → Open x
      → Refused (closing blobs (λ v. x) s) ⊎ Stored (closing blobs (λ v. x) s)
  unfolding closing Open
  closed (ok d, v) (inl o) = absurd (cc (o.0))
  closed (ok d, v) (inr o) = inr o
  closed (err e, v) (inl o) = inl (refl, o.1, o.2, o.3)
  closed (err e, v) (inr (a, d, k, j)) = inr (a, ap rollback d ∙ rolled, k, j)
    where
      rolled : rollback with_row ≡ with_row
      rolled = unfold rollback commit_all commit in refl
  closed (crash t, v) (inl o) = inl (refl, o.1, o.2, o.3)
  closed (crash t, v) (inr (a, d, k, j)) = inr (a, ap rollback d ∙ rolled, k, j)
    where
      rolled : rollback with_row ≡ with_row
      rolled = unfold rollback commit_all commit in refl

  stored :
      (saved : Result (Unit {0}) × W) (queue_up : Bool)
      → Acceptable
      → blobs.save made.storage_path file.content s.store ≡ saved
      → Open (
          (set_tables blobs (λ t. record t {
            documents =
                add documents tenant.organization_id
                  (new_document size uuid_text tenant file id)
                  t.documents;
          })
              >> (on_store blobs (λ w. saved)
                  >> (commit_site blobs
                      >> (enqueue blobs queue_up
                            (job_of tenant (new_document size uuid_text tenant file id))
                          >> pure (new_document size uuid_text tenant file id)))))
            s)
  unfolding set_tables on_store commit_site enqueue new_document add Open
  stored (ok u, w) true a k = inr (a, refl, k, inl (refl, refl))
  stored (ok u, w) false a k = inr (a, refl, k, inr (refl, refl))
  stored (err e, w) queue_up a k =
      inl (refl, unfold rollback in refl, refl, inr (a, err e, refl, k))
  stored (crash t, w) queue_up a k =
      inl (refl, unfold rollback in refl, refl, inr (a, crash t, refl, k))

  stored_upload :
      (queue_up : Bool)
      → Acceptable
      → Open (store_upload blobs size uuid_text decimal max_bytes tenant queue_up file id s)
  unfolding store_upload set_tables on_store commit_site enqueue new_document add
  stored_upload queue_up a =
      stored (blobs.save made.storage_path file.content s.store) queue_up a refl

  guards :
      (queue_up : Bool)
      → Open (
          (raise_if
                (not (
                  text_in
                    (text_or file.content_type "application/octet-stream")
                    allowed_mime_types))
                (unsupported (text_or file.content_type "application/octet-stream"))
              >> (raise_if (ltb max_bytes (size file.content)) (
                    api_error 413 "file_too_large"
                      ("File exceeds the " +s decimal (max_bytes / (1024 * 1024)) +s "MB limit"))
                  >> (raise_if (size file.content == 0) (api_error 400 "bad_request" "Empty file")
                      >> store_upload blobs size uuid_text decimal max_bytes tenant queue_up file
                          id)))
            s)
  guards queue_up =
      elim (Bool-cases
        (text_in (text_or file.content_type "application/octet-stream") allowed_mime_types)) [
          | inr t ↦ rw t (unfold Open in inl (refl, refl, refl, inl refl))
          | inl t ↦ elim (Bool-cases (ltb max_bytes (size file.content))) [
            | inl b ↦ rw (t, b) (unfold Open in inl (refl, refl, refl, inl refl))
            | inr b ↦ elim (Bool-cases (size file.content == 0)) [
              | inl z ↦ rw (t, b, z) (unfold Open in inl (refl, refl, refl, inl refl))
              | inr z ↦
                  rw (t, b, z) (stored_upload queue_up (t, ground (arith, z), ground (arith, b)))
            ]
          ]
        ]

  -- An upload is either refused or failed, with no row, no job and the storage as it was, except that
  -- an acceptable file whose save fails leaves what that save left; or the file has an allowed type, is
  -- not empty and not too large, its row is committed, its blob is saved under the row's path, and the
  -- job is in the queue exactly where the request succeeds: a queue that takes no job leaves a
  -- committed row without one.
  pub upload_document-Settled :
      (queue_up : Bool)
      → Refused (upload_document blobs size uuid_text decimal max_bytes tenant queue_up file id s)
        ⊎ Stored (upload_document blobs size uuid_text decimal max_bytes tenant queue_up file id s)
  unfolding upload_document
  upload_document-Settled queue_up = closed _ (guards queue_up)

-- No row has the id.
abbrev pub Fresh : ℕ → List Document → Type 0
Fresh id rows = All (λ d. (d.id == id) ≡ false) rows

module _ {V W Data : Type 0} (blobs : BlobStorage W Data) (size : Data → ℕ)
    (uuid_text decimal : ℕ → String) (max_bytes : ℕ) (tenant : TenantContext)
    (file : UploadFile Data) (id : ℕ) (s : Site V W) where
  abbrev pub Ready : (String → W → Result Data) → Result Document × Site V W → Type 0
  Ready load x =
      (find documents tenant.organization_id id x.1.db.saved.documents
        ≡ some (made blobs size uuid_text decimal max_bytes tenant file id s))
      × (load (made blobs size uuid_text decimal max_bytes tenant file id s).storage_path x.1.store
          ≡ ok file.content)
      × (x.1.jobs
          ≡ s.jobs
            ++ job_of tenant (made blobs size uuid_text decimal max_bytes tenant file id s) ∷ [])
