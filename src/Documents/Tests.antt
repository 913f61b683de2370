-- ===== src/Documents/Tests.antt =====
-- The theorems on documents at a small workspace. A vector is a number, and a distance is theirs.
use saas_genai_starter.Common.{
  ℕ, ◌+◌, ◌-◌, ◌≡◌, ◌≢◌, ◌⊎◌, refl, true, false, not, none, some, String, codes, List, [], ◌∷◌,
  ◌++◌, map, keep_if, length, All,
}
use saas_genai_starter.Common.Int.{ℤ, pos}
use saas_genai_starter.Chunking.{Chunk}
use saas_genai_starter.Chunking.Words.{Text}
use saas_genai_starter.Llm.Types.{value, raises, exception}
use saas_genai_starter.Usage.Service.{failed}
use saas_genai_starter.Documents.Models.{Document, DocumentChunk, uploaded, processing, ready}
use saas_genai_starter.Documents.Retrieval.{matches, nearest, citation}
use saas_genai_starter.Documents.Ingestion.{
  DocumentDb, Pipeline, of_document, ingest_chunks, process,
}
use saas_genai_starter.Core.Action.{Result}
use saas_genai_starter.Core.Scoped.{add}
use saas_genai_starter.Chunking.Words.{is_space}
use saas_genai_starter.Tenants.Models.{member}
use saas_genai_starter.Tenants.Context.{TenantContext}
use saas_genai_starter.Storage.Paths.{
  ResolvedPath, push, names, is_blank, is_absolute, enter, walk, joined, is_relative_to, resolve,
}
use saas_genai_starter.Storage.Disk.{Disk, has_file, write, save_at, save, load, delete}
use saas_genai_starter.Documents.Router.{
  BlobStorage, UploadFile, Site, new_document, closing, on_store, set_tables, commit_site, enqueue,
  store_upload, upload_document, delete_document,
}
use saas_genai_starter.Documents.Uploads.{is_ok, Refused, Stored, upload_document-Settled}
use saas_genai_starter.Documents.Removal.{Untouched, Removed, delete_document-Removed}
use saas_genai_starter.Documents.Replaced.{held, ingest_chunks-replaced}
use saas_genai_starter.Documents.Lifecycle.{Are, Settled, started, process-Settled}

abbrev handbook : Document
handbook = record {
  id = 4;
  tenant_id = 1;
  name = "handbook.md";
  mime_type = "text/markdown";
  status = uploaded;
  error = none;
  size_bytes = 11;
  storage_path = "1/4/handbook.md";
  title = none;
  language = none;
  summary = none;
  topics = none;
  created_by = 9;
}

abbrev draft : Document
draft = record handbook { id = 5; name = "draft.md" }

abbrev old_chunk : DocumentChunk ℕ
old_chunk = record {
  tenant_id = 1;
  document_id = 4;
  page = none;
  position = 0;
  content = 104 ∷ 105 ∷ [];
  embedding = 30;
}

abbrev distance_of : ℕ → ℕ → ℕ
distance_of a b = (a - b) + (b - a)

abbrev score_of : ℕ → ℤ
score_of d = pos (10000 - d)

abbrev shelf : List Document
shelf = (record handbook { status = ready }) ∷ draft ∷ []

abbrev some_chunks : List (DocumentChunk ℕ)
some_chunks =
    old_chunk
    ∷ (record old_chunk { tenant_id = 2; embedding = 31 })
    ∷ (record old_chunk { document_id = 5 })
    ∷ (record old_chunk { position = 1; embedding = 12 })
    ∷ []

-- the chunk of the other tenant and that of the draft are not found
found_scores :
    map (λ c. c.score) (nearest distance_of score_of 1 10 5 shelf some_chunks)
    ≡ pos 9998 ∷ pos 9980 ∷ []
unfolding nearest matches citation
found_scores = refl

-- A pipeline that embeds a text as its length; the files are texts.
abbrev small : Pipeline ℕ ℕ Text
small = record {
  load = λ path w. (value (104 ∷ 105 ∷ []), w);
  unreadable = λ file mime. none;
  pdf_pages = λ file. file ∷ [];
  decode = λ file. file;
  embed = λ texts w. (
    (value (record { embeddings = map length texts; model = "voyage-3.5"; input_tokens = 7 }), 12),
    w + 1,
  );
  complete = some (λ prompt w. ((failed, 5), w));
  loads = λ text. none;
  describe = λ f. 69 ∷ [];
  tenant = 1;
}

abbrev before : DocumentDb ℕ
before = record {
  saved = record { documents = handbook ∷ draft ∷ []; chunks = some_chunks };
  tables = record { documents = handbook ∷ draft ∷ []; chunks = some_chunks };
  usage = record { saved = []; pending = [] };
}

abbrev new_chunks : List Chunk
new_chunks =
    (record { page = none; position = 0; content = 104 ∷ [] })
    ∷ (record { page = none; position = 1; content = 105 ∷ 106 ∷ [] })
    ∷ []

ingest_chunks-replaced_example :
    let db' = (ingest_chunks small handbook [] new_chunks (before, 0)).1.0 in
    (rows : List (DocumentChunk ℕ)) × (db'.saved.chunks
      ≡ keep_if (λ c. not (of_document 1 4 c)) some_chunks ++ rows)
    × (map held rows ≡ new_chunks)
    × All (λ r. of_document 1 4 r ≡ true) rows
    × All (λ d. (d.id ≢ 4) ⊎ (d.status ≡ ready)) db'.saved.documents
    × (db'.usage.pending ≡ [])
ingest_chunks-replaced_example =
    ingest_chunks-replaced small handbook [] new_chunks before 0 (unfold ingest_chunks in refl)

-- the same pipeline with an embedder that fails
abbrev unembedded : Pipeline ℕ ℕ Text
unembedded = record small { embed = λ texts w. ((raises (exception "down"), 12), w + 1) }

process-Settled_example :
    Are unembedded handbook processing (started unembedded handbook before)
    × Settled unembedded handbook
        (started unembedded handbook before)
        (process unembedded handbook (before, 0)).0
        (process unembedded handbook (before, 0)).1.0
process-Settled_example = process-Settled unembedded handbook before 0

abbrev workspace : TenantContext
workspace = record {
  organization_id = 1;
  user_id = 9;
  role = member;
  plan = "free";
  rpm_override = none;
  tpd_override = none;
}

abbrev disk_root : ResolvedPath
disk_root = codes "data" ∷ []

abbrev local_disk : BlobStorage (Disk ℕ) ℕ
local_disk = record {
  save = λ path bytes. save disk_root (codes path) bytes;
  delete = λ path. delete disk_root (codes path);
}

abbrev load_file : String → Disk ℕ → Result ℕ
load_file path = load disk_root (codes path)

abbrev site : Site ℕ (Disk ℕ)
site = record {
  db = record {
    saved = record { documents = handbook ∷ []; chunks = old_chunk ∷ [] };
    tables = record { documents = handbook ∷ []; chunks = old_chunk ∷ [] };
    usage = record { saved = []; pending = [] };
  };
  store = record { files = []; directories = [] ∷ disk_root ∷ [] };
  jobs = [];
}

abbrev notes : UploadFile ℕ
notes = record { content_type = some "text/plain"; filename = some "notes.txt"; content = 12 }

abbrev bytes_of : ℕ → ℕ
bytes_of d = d

abbrev text_of_id : ℕ → String
text_of_id id = "7"

upload_document-Settled_example :
    Refused local_disk bytes_of text_of_id text_of_id 100 workspace notes 7 site
      (upload_document local_disk bytes_of text_of_id text_of_id 100 workspace false notes 7 site)
    ⊎ Stored local_disk bytes_of text_of_id text_of_id 100 workspace notes 7 site
        (upload_document local_disk bytes_of text_of_id text_of_id 100 workspace false notes 7 site)
upload_document-Settled_example =
    upload_document-Settled local_disk bytes_of text_of_id text_of_id 100 workspace notes 7 site
      false

accepted :
    is_ok
      (upload_document local_disk bytes_of text_of_id text_of_id 100 workspace true notes 7 site).0
    ≡ true
unfolding upload_document closing store_upload set_tables on_store commit_site enqueue new_document
    add save save_at write has_file resolve joined walk enter names push is_absolute is_relative_to
    is_blank is_space
accepted = refl

delete_document-Removed_example :
    Untouched local_disk bytes_of text_of_id text_of_id 100 workspace 4 site
      (delete_document local_disk bytes_of text_of_id text_of_id 100 workspace 4 site)
    ⊎ Removed local_disk bytes_of text_of_id text_of_id 100 workspace 4 site
        (delete_document local_disk bytes_of text_of_id text_of_id 100 workspace 4 site)
delete_document-Removed_example =
    delete_document-Removed local_disk bytes_of text_of_id text_of_id 100 workspace 4 site
