-- ===== src/Documents/Ingestion.antt =====
-- Ingestion: apps/api/src/domains/documents/ingestion.py, jobs.py, and the chunk repository.
use saas_genai_starter.Common.{
  ℕ, zero, suc, Bool, not, ◌&&◌, Option, none, some, List, [], ◌∷◌, ◌++◌, map, String, ◌==◌,
  if◌then◌else◌, keep_if, take, drop, length, or_else,
}
use saas_genai_starter.Chunking.Words.{Text}
use saas_genai_starter.Chunking.{Page, Chunk, extract_pages, chunk_pages}
use saas_genai_starter.Core.Scoped.{find}
use saas_genai_starter.Llm.Types.{
  EmbeddingResult, Failure, llm_error, exception, cancellation, Tried, value, raises,
}
use saas_genai_starter.Usage.Session.{Session, commit}
use saas_genai_starter.Usage.Service.{
  Caller, Awaited, returned, failed, interrupted, record_embedding, tracked_complete,
}
use saas_genai_starter.Documents.Models.{
  Document, DocumentChunk, DocumentStatus, processing, ready, documents,
}
use saas_genai_starter.Documents.Models

abbrev pub embed_batch_size : ℕ
embed_batch_size = 100

abbrev pub metadata_sample_chars : ℕ
metadata_sample_chars = 6000

pub record Tables (V : Type 0) : Type 0 where
  pub documents : List Document
  pub chunks : List (DocumentChunk V)

-- the database session: what is committed, what it has made of it, and the usage rows
pub record DocumentDb (V : Type 0) : Type 0 where
  pub saved : Tables V
  pub tables : Tables V
  pub usage : Session

-- The fields that `str(data.get(...))` gives of the object that the model answers, and its list of
-- topics, where that is a list.
pub record Metadata : Type 0 where
  pub title : Text
  pub language : Text
  pub summary : Text
  pub topics : Option (List Text)

-- What ingestion works with, with a state `W` of the storage and the providers: the storage; PyMuPDF,
-- which may fail to open a file; the decoder; the embedder and the chat provider with the time that a
-- call takes; `json.loads` of an object; and the text of an exception with its class.
pub record Pipeline (V W Data : Type 0) : Type 0 where
  pub load : String → W → Tried Data × W
  pub unreadable : Data → String → Option Failure
  pub pdf_pages : Data → List Text
  pub decode : Data → Text
  pub embed : List Text → W → (Tried (EmbeddingResult V) × ℕ) × W
  pub complete : Option (Text → W → (Awaited × ℕ) × W)
  pub loads : String → Option Metadata
  pub describe : Failure → Text
  pub tenant : ℕ

-- an assignment to a row
abbrev pub update : {V : Type 0} → ℕ → (Document → Document) → Tables V → Tables V
update id f t = record t { documents = map (λ d. if d.id == id then f d else d) t.documents }

module _ {V : Type 0} where
  -- `db.commit()` and `db.rollback()`
  unfoldable pub commit_all : DocumentDb V → DocumentDb V
  unfolding commit
  commit_all db = record { saved = db.tables; tables = db.tables; usage = commit db.usage }

  unfoldable pub rollback : DocumentDb V → DocumentDb V
  rollback db = record {
    saved = db.saved;
    tables = db.saved;
    usage = record db.usage { pending = [] };
  }

  abbrev pub of_document : ℕ → ℕ → DocumentChunk V → Bool
  of_document tenant id c = c.tenant_id == tenant && c.document_id == id

  unfoldable pub delete_for_document : ℕ → ℕ → Tables V → Tables V
  delete_for_document tenant id t = record t {
    chunks = keep_if (λ c. not (of_document tenant id c)) t.chunks;
  }

  abbrev pub chunk_row : ℕ → ℕ → Chunk → V → DocumentChunk V
  chunk_row tenant id c embedding = record {
    tenant_id = tenant;
    document_id = id;
    page = c.page;
    position = c.position;
    content = c.content;
    embedding = embedding;
  }

  -- `zip(batch, embeddings, strict=True)`: `none` where the lengths differ
  unfoldable pub zip_rows : ℕ → ℕ → List Chunk → List V → Option (List (DocumentChunk V))
  zip_rows tenant id [] [] = some []
  zip_rows tenant id [] (e ∷ es) = none
  zip_rows tenant id (c ∷ cs) [] = none
  zip_rows tenant id (c ∷ cs) (e ∷ es) = elim (zip_rows tenant id cs es) [
    | none ↦ none
    | some rows ↦ some (chunk_row tenant id c e ∷ rows)
  ]

-- `chunks[start : start + size]` for every start of `range(0, len(chunks), size)`; the fuel is the number
-- of chunks.
unfoldable pub batches : ℕ → List Chunk → List (List Chunk)
batches zero cs = []
batches (suc n) [] = []
batches (suc n) (c ∷ cs) =
    take embed_batch_size (c ∷ cs) ∷ batches n (drop embed_batch_size (c ∷ cs))

abbrev pub or_empty : Text → Option Text
or_empty [] = none
or_empty (c ∷ cs) = some (c ∷ cs)

unfoldable pub set_metadata : Metadata → Document → Document
set_metadata m d = record d {
  title = or_empty (take 255 m.title);
  language = or_empty (take 16 m.language);
  summary = or_empty m.summary;
  topics = elim m.topics [ none ↦ none | some ts ↦ some (take 5 ts) ];
}

-- `"\n".join(...)` of the texts of the pages
abbrev pub join_lines : List Page → Text
join_lines [] = []
join_lines (p ∷ []) = p.text
join_lines (p ∷ q ∷ ps) = p.text ++ 10 ∷ join_lines (q ∷ ps)

module _ {V W Data : Type 0} (pipe : Pipeline V W Data) (document : Document) where
  abbrev pub State : Type 0
  State = DocumentDb V × W

  -- the rows of a batch, where it has an embedding for each chunk
  unfoldable pub add_rows : Option (List (DocumentChunk V)) → State → Tried (Unit {0}) × State
  add_rows none s = (raises (exception "ValueError"), s)
  add_rows (some rows) (db, w) =
      (value tt, (record db { tables = record db.tables { chunks = db.tables.chunks ++ rows } }, w))

  unfoldable pub embedded :
      List Chunk → DocumentDb V → (Tried (EmbeddingResult V) × ℕ) × W → Tried (Unit {0}) × State
  unfolding add_rows zip_rows record_embedding
  embedded batch db ((raises f, latency), w) = (raises f, (db, w))
  embedded batch db ((value r, latency), w) =
      add_rows (zip_rows pipe.tenant document.id batch r.embeddings) (
        record db {
          usage =
              record_embedding pipe.tenant document.created_by r.model r.input_tokens latency
                db.usage;
        },
        w,
      )

  unfoldable pub embed_batch : List Chunk → State → Tried (Unit {0}) × State
  unfolding embedded
  embed_batch batch (db, w) = embedded batch db (pipe.embed (map (λ c. c.content) batch) w)

  unfoldable pub embed_all : List (List Chunk) → State → Tried (Unit {0}) × State
  unfolding embed_batch
  embed_all [] s = (value tt, s)
  embed_all (b ∷ bs) s =
      let (o, s') = embed_batch b s in
      elim o [ value u ↦ embed_all bs s' | raises f ↦ (raises f, s') ]

  abbrev pub extractor : Caller
  extractor = record {
    tenant_id = pipe.tenant;
    feature = "extraction";
    created_by = document.created_by;
  }

  -- `data` is assigned to the fields; what `json.loads` or the object refuses is logged
  abbrev pub assigned : Option Metadata → Tables V → Tables V
  assigned none t = t
  assigned (some m) t = update document.id (set_metadata m) t

  -- The failed call commits its row, and with it what the session has made.
  unfoldable pub completed : DocumentDb V → (Awaited × ℕ) × W → Tried (Unit {0}) × State
  unfolding tracked_complete set_metadata
  completed db ((returned c, latency), w) = (
    value tt,
    (
      record db {
        tables = assigned (pipe.loads c.text) db.tables;
        usage = tracked_complete extractor latency (returned c) db.usage;
      },
      w,
    ),
  )
  completed db ((failed, latency), w) = (
    value tt,
    (
      record {
        saved = db.tables;
        tables = db.tables;
        usage = tracked_complete extractor latency failed db.usage;
      },
      w,
    ),
  )
  completed db ((interrupted, latency), w) = (raises cancellation, (db, w))

  -- `_extract_metadata`, where there is a chat provider. The prompt has this sample in it.
  unfoldable pub extract_metadata :
      Option (Text → W → (Awaited × ℕ) × W) → List Page → State → Tried (Unit {0}) × State
  unfolding completed
  extract_metadata none pages s = (value tt, s)
  extract_metadata (some complete) pages (db, w) =
      completed db (complete (take metadata_sample_chars (join_lines pages)) w)

  abbrev pub set_ready : Document → Document
  set_ready d = record d { status = ready }

  unfoldable pub mark_ready : Tried (Unit {0}) × State → Tried (Unit {0}) × State
  unfolding commit_all
  mark_ready (raises f, s) = (raises f, s)
  mark_ready (value u, (db, w)) =
      (value tt, (commit_all (record db { tables = update document.id set_ready db.tables }), w))

  unfoldable pub then_metadata : List Page → Tried (Unit {0}) × State → Tried (Unit {0}) × State
  unfolding extract_metadata mark_ready
  then_metadata pages (raises f, s) = (raises f, s)
  then_metadata pages (value u, s) = mark_ready (extract_metadata pipe.complete pages s)

  unfoldable pub ingest_chunks : List Page → List Chunk → State → Tried (Unit {0}) × State
  unfolding then_metadata embed_all batches delete_for_document
  ingest_chunks pages [] s = (raises (exception "No text content found in the document"), s)
  ingest_chunks pages (c ∷ cs) (db, w) = then_metadata pages (
      embed_all (batches (length (c ∷ cs)) (c ∷ cs))
        (record db { tables = delete_for_document pipe.tenant document.id db.tables }, w))

  unfoldable pub pages_of : Data → List Page
  pages_of file = extract_pages pipe.pdf_pages pipe.decode file document.mime_type

  -- `chunk_pages` always has a result.
  unfoldable pub parsed : Option Failure → Data → State → Tried (Unit {0}) × State
  unfolding ingest_chunks
  parsed (some f) file s = (raises f, s)
  parsed none file s = ingest_chunks (pages_of file) (or_else (chunk_pages (pages_of file)) []) s

  unfoldable pub loaded : DocumentDb V → Tried Data × W → Tried (Unit {0}) × State
  unfolding parsed
  loaded db (raises f, w) = (raises f, (db, w))
  loaded db (value file, w) = parsed (pipe.unreadable file document.mime_type) file (db, w)

  -- `_run_pipeline`
  unfoldable pub run_pipeline : State → Tried (Unit {0}) × State
  unfolding loaded
  run_pipeline (db, w) = loaded db (pipe.load document.storage_path w)

  abbrev pub set_failed : Text → Document → Document
  set_failed error d = record d { status = Models.failed; error = some error }

  -- what `except Exception` does, and not to an exception that is none
  unfoldable pub failure_marked : Failure → State → State
  unfolding rollback commit_all
  failure_marked cancellation s = s
  failure_marked (llm_error e) (db, w) =
      let db' = rollback db in
      (
        commit_all (record db' {
          tables =
              update document.id (set_failed (take 2000 (pipe.describe (llm_error e)))) db'.tables;
        }),
        w,
      )
  failure_marked (exception m) (db, w) =
      let db' = rollback db in
      (
        commit_all (record db' {
          tables =
              update document.id (set_failed (take 2000 (pipe.describe (exception m)))) db'.tables;
        }),
        w,
      )

  unfoldable pub guarded : Tried (Unit {0}) × State → Tried (Unit {0}) × State
  unfolding failure_marked
  guarded (value u, s) = (value u, s)
  guarded (raises f, s) = (raises f, failure_marked f s)

  abbrev pub set_processing : Document → Document
  set_processing d = record d { status = processing; error = none }

  unfoldable pub process : State → Tried (Unit {0}) × State
  unfolding guarded run_pipeline commit_all
  process (db, w) = guarded (
      run_pipeline
        (commit_all (record db { tables = update document.id set_processing db.tables }), w))

module _ {V W Data : Type 0} (pipe : Pipeline V W Data) where
  unfoldable pub process_found :
      Option Document → DocumentDb V × W → Tried (Unit {0}) × (DocumentDb V × W)
  unfolding process
  process_found none s = (value tt, s)
  process_found (some d) s = process pipe d s

  unfoldable pub ingest_document : ℕ → DocumentDb V × W → Tried (Unit {0}) × (DocumentDb V × W)
  unfolding process_found find
  ingest_document id (db, w) =
      process_found (find documents pipe.tenant id db.tables.documents) (db, w)
