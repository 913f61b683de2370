-- ===== src/Documents/Router.antt =====
-- The routes of apps/api/src/domains/documents/router.py that change state. The blob storage is any
-- that `BlobStorage` of apps/api/src/core/storage.py allows, with a state `W`; `queue_up` says whether the
-- task queue takes a job. `uuid_text` and `decimal` are `str` of an id and of an int.
use saas_genai_starter.Common.{
  ℕ, Bool, not, Option, none, some, List, [], ◌∷◌, ◌++◌, String, ◌+s◌, str_eq, text_in, ltb, ◌==◌,
  ◌/◌, ◌*◌, if◌then◌else◌, keep_if, first_chars,
}
use saas_genai_starter.Core.Errors.{ApiError, api_error, not_found}
use saas_genai_starter.Core.Action.{
  Action, ok, err, crash, pure, raise_if, or_raise, modify, ◌>>=◌, ◌>>◌,
}
use saas_genai_starter.Core.Scoped.{find, add, delete}
use saas_genai_starter.Tenants.Context.{TenantContext}
use saas_genai_starter.Documents.Models.{Document, uploaded, documents}
use saas_genai_starter.Documents.Ingestion.{
  Tables, DocumentDb, commit_all, rollback, delete_for_document,
}

-- ALLOWED_MIME_TYPES, sorted
abbrev pub allowed_mime_types : List String
allowed_mime_types = "application/pdf" ∷ "text/markdown" ∷ "text/plain" ∷ []

pub record BlobStorage (W Data : Type 0) : Type 0 where
  pub save : String → Data → Action W (Unit {0})
  pub delete : String → Action W (Unit {0})

-- The keyword arguments of `queue.enqueue("ingest_document_job", ...)`.
pub record IngestJob : Type 0 where
  pub document_id : ℕ
  pub tenant_id : ℕ
  pub user_id : ℕ

-- `UploadFile`
pub record UploadFile (Data : Type 0) : Type 0 where
  pub content_type : Option String
  pub filename : Option String
  pub content : Data

-- The database, the storage and the jobs of the queue, in their order.
pub record Site (V W : Type 0) : Type 0 where
  pub db : DocumentDb V
  pub store : W
  pub jobs : List IngestJob

-- a falsy text counts as none
abbrev pub text_or : Option String → String → String
text_or none d = d
text_or (some s) d = if str_eq s "" then d else s

unfoldable pub new_document :
    {Data : Type 0} → (Data → ℕ) → (ℕ → String) → TenantContext → UploadFile Data → ℕ → Document
new_document size uuid_text tenant file id =
    let name = first_chars 255 (text_or file.filename "document") in
    record {
      id = id;
      tenant_id = tenant.organization_id;
      name = name;
      mime_type = text_or file.content_type "application/octet-stream";
      size_bytes = size file.content;
      status = uploaded;
      error = none;
      storage_path = uuid_text tenant.organization_id +s "/" +s uuid_text id +s "/" +s name;
      title = none;
      language = none;
      summary = none;
      topics = none;
      created_by = tenant.user_id;
    }

abbrev pub job_of : TenantContext → Document → IngestJob
job_of tenant d = record {
  document_id = d.id;
  tenant_id = tenant.organization_id;
  user_id = tenant.user_id;
}

abbrev pub unsupported : String → ApiError
unsupported mime_type = api_error 415 "unsupported_type" (
    "Unsupported file type " +s mime_type
    +s " — allowed: application/pdf, text/markdown, text/plain")

module _ {V W Data : Type 0} (blobs : BlobStorage W Data) where
  -- The end of a request rolls back what it has not committed.
  unfoldable pub closing : {A : Type 0} → Action (Site V W) A → Action (Site V W) A
  unfolding rollback
  closing m s =
      let (r, s') = m s in
      elim r [
        | ok a ↦ (ok a, s')
        | err e ↦ (err e, record s' { db = rollback s'.db })
        | crash t ↦ (crash t, record s' { db = rollback s'.db })
      ]

  unfoldable pub on_store : {A : Type 0} → Action W A → Action (Site V W) A
  on_store m s = let (r, w) = m s.store in (r, record s { store = w })

  unfoldable pub set_tables : (Tables V → Tables V) → Action (Site V W) (Unit {0})
  set_tables f = modify (λ s. record s { db = record s.db { tables = f s.db.tables } })

  unfoldable pub commit_site : Action (Site V W) (Unit {0})
  unfolding commit_all
  commit_site = modify (λ s. record s { db = commit_all s.db })

  -- `queue.enqueue`
  unfoldable pub enqueue : Bool → IngestJob → Action (Site V W) (Unit {0})
  enqueue queue_up job s =
      if queue_up then (ok tt, record s { jobs = s.jobs ++ job ∷ [] }) else (crash "QueueError", s)

  module _ (size : Data → ℕ) (uuid_text decimal : ℕ → String) (max_bytes : ℕ)
      (tenant : TenantContext) where
    -- from the insert to the response
    unfoldable pub store_upload : Bool → UploadFile Data → ℕ → Action (Site V W) Document
    unfolding set_tables on_store commit_site enqueue new_document add
    store_upload queue_up file id =
        set_tables (λ t. record t {
          documents =
              add documents tenant.organization_id (new_document size uuid_text tenant file id)
                t.documents;
        })
        >> (on_store
              (blobs.save (new_document size uuid_text tenant file id).storage_path file.content)
            >> (commit_site
                >> (enqueue queue_up (job_of tenant (new_document size uuid_text tenant file id))
                    >> pure (new_document size uuid_text tenant file id))))

    unfoldable pub upload_document : Bool → UploadFile Data → ℕ → Action (Site V W) Document
    unfolding closing store_upload
    upload_document queue_up file id =
        let mime_type = text_or file.content_type "application/octet-stream" in
        closing (
          raise_if (not (text_in mime_type allowed_mime_types)) (unsupported mime_type)
          >> (raise_if (ltb max_bytes (size file.content)) (
                api_error 413 "file_too_large"
                  ("File exceeds the " +s decimal (max_bytes / (1024 * 1024)) +s "MB limit"))
              >> (raise_if (size file.content == 0) (api_error 400 "bad_request" "Empty file")
                  >> store_upload queue_up file id)))

    unfoldable pub get_document : ℕ → Action (Site V W) Document
    unfolding find
    get_document id s =
        or_raise (find documents tenant.organization_id id s.db.tables.documents)
          (not_found "Document not found") s

    -- The row goes, and with it the chunks that refer to it (ON DELETE CASCADE).
    abbrev pub dropped : Document → Option (List Document) → Action (Site V W) (Unit {0})
    dropped d none s = (crash "ValueError", s)
    dropped d (some rows) s = (
      ok tt,
      record s {
        db = record s.db {
          tables = record {
            documents = rows;
            chunks = keep_if (λ c. not (c.document_id == d.id)) s.db.tables.chunks;
          };
        };
      },
    )

    unfoldable pub drop_document : Document → Action (Site V W) (Unit {0})
    unfolding delete
    drop_document d s =
        dropped d (delete documents tenant.organization_id d s.db.tables.documents) s

    unfoldable pub remove_document : Document → Action (Site V W) (Unit {0})
    unfolding set_tables on_store drop_document commit_site delete_for_document
    remove_document d =
        set_tables (delete_for_document tenant.organization_id d.id)
        >> (on_store (blobs.delete d.storage_path) >> (drop_document d >> commit_site))

    unfoldable pub delete_document : ℕ → Action (Site V W) (Unit {0})
    unfolding closing get_document remove_document
    delete_document id = closing (get_document id >>= remove_document)
