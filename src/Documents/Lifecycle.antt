-- ===== src/Documents/Lifecycle.antt =====
-- How the ingestion of a document ends: apps/api/src/domains/documents/ingestion.py.
use saas_genai_starter.Common.{
  ℕ, ◌≡◌, ◌≢◌, refl, ap, ◌∙◌, ◌⊎◌, inl, inr, Option, none, some, List, [], ◌∷◌, map, append-nil,
  length, All,
}
use saas_genai_starter.Chunking.{Page, Chunk}
use saas_genai_starter.Chunking.Words.{Text}
use saas_genai_starter.Llm.Types.{
  EmbeddingResult, Failure, llm_error, exception, cancellation, Tried, value, raises, Tried-cases,
}
use saas_genai_starter.Usage.Session.{commit, add_row}
use saas_genai_starter.Usage.Service.{Awaited, returned, failed, interrupted, record_embedding}
use saas_genai_starter.Documents.Models.{Document, DocumentChunk, DocumentStatus, processing, ready}
use saas_genai_starter.Documents.Models
use saas_genai_starter.Documents.Ingestion.{
  DocumentDb, Pipeline, update, commit_all, rollback, delete_for_document, zip_rows, batches,
  add_rows, embedded, embed_batch, embed_all, completed, extract_metadata, mark_ready,
  then_metadata, ingest_chunks, pages_of, parsed, loaded, run_pipeline, failure_marked, guarded,
  process,
}
use saas_genai_starter.Documents.Replaced.{set_rows, ingest_chunks-replaced}

module _ {V W Data : Type 0} (pipe : Pipeline V W Data) (document : Document) where
  -- What is committed is what was committed before.
  abbrev Unsaved : DocumentDb V → DocumentDb V → Type 0
  Unsaved db db' = (db'.saved ≡ db.saved) × (db'.usage.saved ≡ db.usage.saved)

  add_rows-Unsaved :
      (o : Option (List (DocumentChunk V))) (db : DocumentDb V) (w : W)
      → Unsaved db (add_rows pipe document o (db, w)).1.0
  unfolding add_rows
  add_rows-Unsaved none db w = (refl, refl)
  add_rows-Unsaved (some rows) db w = (refl, refl)

  embedded-Unsaved :
      (batch : List Chunk) (db : DocumentDb V) (p : (Tried (EmbeddingResult V) × ℕ) × W)
      → Unsaved db (embedded pipe document batch db p).1.0
  unfolding embedded record_embedding add_row
  embedded-Unsaved batch db ((raises f, latency), w) = (refl, refl)
  embedded-Unsaved batch db ((value r, latency), w) =
      let charged : DocumentDb V = record db {
        usage =
            record_embedding pipe.tenant document.created_by r.model r.input_tokens latency
              db.usage;
      } in
      add_rows-Unsaved (zip_rows pipe.tenant document.id batch r.embeddings) charged w

  embed_all-Unsaved :
      (bs : List (List Chunk)) (db : DocumentDb V) (w : W)
      → Unsaved db (embed_all pipe document bs (db, w)).1.0
  unfolding embed_all embed_batch
  embed_all-Unsaved [] db w = (refl, refl)
  embed_all-Unsaved (b ∷ bs) db w =
      let next : DocumentDb V × W = (embed_batch pipe document b (db, w)).1 in
      let (a, u) = embedded-Unsaved b db (pipe.embed (map (λ c. c.content) b) w) in
      elim (Tried-cases (embed_batch pipe document b (db, w)).0) [
        | inr (f, g) ↦ rw (embed_all, g) (a, u)
        | inl (t, g) ↦
            let (a', u') = embed_all-Unsaved bs next.0 next.1 in rw (embed_all, g) (a' ∙ a, u' ∙ u)
      ]

  completed-Unsaved :
      (db : DocumentDb V) (p : (Awaited × ℕ) × W) (f : Failure)
      → (completed pipe document db p).0 ≡ raises f
      → Unsaved db (completed pipe document db p).1.0
  unfolding completed
  completed-Unsaved db ((returned c, latency), w) f e = absurd (cc)
  completed-Unsaved db ((failed, latency), w) f e = absurd (cc)
  completed-Unsaved db ((interrupted, latency), w) f e = (refl, refl)

  extract_metadata-Unsaved :
      (complete : Option (Text → W → (Awaited × ℕ) × W)) (pages : List Page) (db : DocumentDb V)
      (w : W) (f : Failure)
      → (extract_metadata pipe document complete pages (db, w)).0 ≡ raises f
      → Unsaved db (extract_metadata pipe document complete pages (db, w)).1.0
  unfolding extract_metadata
  extract_metadata-Unsaved none pages db w f e = absurd (cc)
  extract_metadata-Unsaved (some complete) pages db w f e = completed-Unsaved db (complete _ w) f e

  mark_ready-Unsaved :
      (db : DocumentDb V) (p : Tried (Unit {0}) × (DocumentDb V × W)) (f : Failure)
      → (mark_ready pipe document p).0 ≡ raises f
      → ((g : Failure) → p.0 ≡ raises g → Unsaved db p.1.0)
      → Unsaved db (mark_ready pipe document p).1.0
  unfolding mark_ready
  mark_ready-Unsaved db (raises g, s) f e h = h g refl
  mark_ready-Unsaved db (value u, s) f e h = absurd (cc)

  then_metadata-Unsaved :
      (pages : List Page) (db : DocumentDb V) (p : Tried (Unit {0}) × (DocumentDb V × W))
      (f : Failure)
      → (then_metadata pipe document pages p).0 ≡ raises f
      → Unsaved db p.1.0
      → Unsaved db (then_metadata pipe document pages p).1.0
  unfolding then_metadata
  then_metadata-Unsaved pages db (raises g, s) f e h = h
  then_metadata-Unsaved pages db (value u, (db', w)) f e (a, b) =
      mark_ready-Unsaved db (extract_metadata pipe document pipe.complete pages (db', w)) f e
        (λ g x.
          let (a', b') = extract_metadata-Unsaved pipe.complete pages db' w g x in (a' ∙ a, b' ∙ b))

  ingest_chunks-Unsaved :
      (pages : List Page) (cs : List Chunk) (db : DocumentDb V) (w : W) (f : Failure)
      → (ingest_chunks pipe document pages cs (db, w)).0 ≡ raises f
      → Unsaved db (ingest_chunks pipe document pages cs (db, w)).1.0
  unfolding ingest_chunks
  ingest_chunks-Unsaved pages [] db w f e = (refl, refl)
  ingest_chunks-Unsaved pages (c ∷ cs) db w f e =
      let start : DocumentDb V = record db {
        tables = delete_for_document pipe.tenant document.id db.tables;
      } in
      then_metadata-Unsaved pages db
        (embed_all pipe document (batches (length (c ∷ cs)) (c ∷ cs)) (start, w)) f e
        (embed_all-Unsaved (batches (length (c ∷ cs)) (c ∷ cs)) start w)

  parsed-Unsaved :
      (o : Option Failure) (file : Data) (db : DocumentDb V) (w : W) (f : Failure)
      → (parsed pipe document o file (db, w)).0 ≡ raises f
      → Unsaved db (parsed pipe document o file (db, w)).1.0
  unfolding parsed
  parsed-Unsaved (some g) file db w f e = (refl, refl)
  parsed-Unsaved none file db w f e = ingest_chunks-Unsaved (pages_of pipe document file) _ db w f e

  loaded-Unsaved :
      (db : DocumentDb V) (p : Tried Data × W) (f : Failure)
      → (loaded pipe document db p).0 ≡ raises f
      → Unsaved db (loaded pipe document db p).1.0
  unfolding loaded
  loaded-Unsaved db (raises g, w) f e = (refl, refl)
  loaded-Unsaved db (value file, w) f e =
      parsed-Unsaved (pipe.unreadable file document.mime_type) file db w f e

  -- the rows of the document have this status
  abbrev pub Are : DocumentStatus → DocumentDb V → Type 0
  Are s db = All (λ d. (d.id ≢ document.id) ⊎ (d.status ≡ s)) db.saved.documents

  ingest_chunks-ready :
      (pages : List Page) (cs : List Chunk) (db : DocumentDb V) (w : W)
      → (ingest_chunks pipe document pages cs (db, w)).0 ≡ value tt
      → Are ready (ingest_chunks pipe document pages cs (db, w)).1.0
  ingest_chunks-ready pages cs db w e =
      let (rows, c, h, o, r, n) = ingest_chunks-replaced pipe document pages cs db w e in r

  parsed-ready :
      (o : Option Failure) (file : Data) (db : DocumentDb V) (w : W)
      → (parsed pipe document o file (db, w)).0 ≡ value tt
      → Are ready (parsed pipe document o file (db, w)).1.0
  unfolding parsed
  parsed-ready (some g) file db w e = absurd (cc)
  parsed-ready none file db w e = ingest_chunks-ready (pages_of pipe document file) _ db w e

  loaded-ready :
      (db : DocumentDb V) (p : Tried Data × W)
      → (loaded pipe document db p).0 ≡ value tt
      → Are ready (loaded pipe document db p).1.0
  unfolding loaded
  loaded-ready db (raises g, w) e = absurd (cc)
  loaded-ready db (value file, w) e =
      parsed-ready (pipe.unreadable file document.mime_type) file db w e

  -- How it ends: ready; failed with what was committed besides otherwise as before; or, where it is
  -- cancelled, with the rows as they were committed at first.
  abbrev pub Settled : DocumentDb V → Tried (Unit {0}) → DocumentDb V → Type 0
  Settled db o db' =
      ((o ≡ value tt) × Are ready db')
      ⊎ (((f : Failure) × (o ≡ raises f)
            × (f ≢ cancellation)
            × Are Models.failed db'
            × (db'.saved.chunks ≡ db.saved.chunks)
            × (db'.usage.saved ≡ db.usage.saved))
          ⊎ ((o ≡ raises cancellation) × (db'.saved ≡ db.saved)))

  failure_marked-Settled :
      (db db' : DocumentDb V) (w : W) (f : Failure)
      → Unsaved db db'
      → Settled db (raises f) (failure_marked pipe document f (db', w)).0
  unfolding failure_marked commit_all rollback commit
  failure_marked-Settled db db' w (llm_error x) (a, u) = inr (
      inl (
        llm_error x,
        refl,
        (λ e. absurd (cc)),
        set_rows (λ d. record d { status = Models.failed; error = some _ }) document.id
            Models.failed db'.saved.documents (λ d. refl) (λ d. refl),
        ap (λ t. t.chunks) a,
        append-nil db'.usage.saved ∙ u,
      ))
  failure_marked-Settled db db' w (exception m) (a, u) = inr (
      inl (
        exception m,
        refl,
        (λ e. absurd (cc)),
        set_rows (λ d. record d { status = Models.failed; error = some _ }) document.id
            Models.failed db'.saved.documents (λ d. refl) (λ d. refl),
        ap (λ t. t.chunks) a,
        append-nil db'.usage.saved ∙ u,
      ))
  failure_marked-Settled db db' w cancellation (a, u) = inr (inr (refl, a))

  guarded-Settled :
      (db : DocumentDb V) (p : Tried (Unit {0}) × (DocumentDb V × W))
      → (p.0 ≡ value tt → Are ready p.1.0)
      → ((f : Failure) → p.0 ≡ raises f → Unsaved db p.1.0)
      → Settled db (guarded pipe document p).0 (guarded pipe document p).1.0
  unfolding guarded
  guarded-Settled db (value tt, s) r u = inl (refl, r refl)
  guarded-Settled db (raises f, (db', w)) r u = failure_marked-Settled db db' w f (u f refl)

  -- the session once the document is marked as processing
  abbrev pub started : DocumentDb V → DocumentDb V
  started db = commit_all (record db {
    tables = update document.id (λ d. record d { status = processing; error = none }) db.tables;
  })

  -- However the storage, the parser and the providers behave: first the document is committed as
  -- processing. Then ingestion ends with the document ready; or it raises an Exception, the document is
  -- failed, and the committed chunks and usage rows are those from before; or it is cancelled, and the
  -- document stays as processing.
  pub process-Settled :
      (db : DocumentDb V) (w : W)
      → Are processing (started db)
        × Settled (started db) (process pipe document (db, w)).0 (process pipe document (db, w)).1.0
  unfolding process run_pipeline commit_all
  process-Settled db w =
      let first = started db in
      (
        set_rows (λ d. record d { status = processing; error = none }) document.id processing
            db.tables.documents (λ d. refl) (λ d. refl),
        guarded-Settled first (run_pipeline pipe document (first, w))
            (loaded-ready first (pipe.load document.storage_path w))
            (loaded-Unsaved first (pipe.load document.storage_path w)),
      )
