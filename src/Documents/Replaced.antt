-- ===== src/Documents/Replaced.antt =====
-- Ingestion replaces the chunks of its document: apps/api/src/domains/documents/ingestion.py.
use saas_genai_starter.Common.{
  ℕ, zero, suc, ◌≤◌, ◌≡◌, ◌≢◌, refl, sym, ap, subst, ◌∙◌, ◌⊎◌, inl, inr, true, not, Bool-cases,
  Option-cases, Option, none, some, List, [], ◌∷◌, ◌++◌, map, append-nil, append_assoc, map-append,
  ◌==◌, if◌then◌else◌, keep_if, take, drop, take-append-drop, length, length-drop, arith, All,
  All-append,
}
use saas_genai_starter.Chunking.{Page, Chunk}
use saas_genai_starter.Chunking.Words.{Text}
use saas_genai_starter.Llm.Types.{EmbeddingResult, Tried, value, raises, Tried-cases}
use saas_genai_starter.Usage.Session.{commit}
use saas_genai_starter.Usage.Service.{Awaited, returned, failed, interrupted}
use saas_genai_starter.Documents.Models.{DocumentStatus, ready, Document, DocumentChunk}
use saas_genai_starter.Documents.Ingestion.{
  embed_batch_size, DocumentDb, Tables, Pipeline, Metadata, commit_all, of_document,
  delete_for_document, chunk_row, zip_rows, batches, assigned, add_rows, embedded, embed_batch,
  embed_all, completed, extract_metadata, mark_ready, then_metadata, ingest_chunks,
}

-- the batches, one after the other
abbrev joined : List (List Chunk) → List Chunk
joined [] = []
joined (b ∷ bs) = b ++ joined bs

joined-batches : (n : ℕ) (cs : List Chunk) → length cs ≤ n → joined (batches n cs) ≡ cs
unfolding batches
joined-batches zero [] h = refl
joined-batches zero (c ∷ cs) h = absurd (omega (arith, h))
joined-batches (suc n) [] h = refl
joined-batches (suc n) (c ∷ cs) h =
    ap (λ r. take embed_batch_size (c ∷ cs) ++ r)
      (joined-batches n (drop embed_batch_size (c ∷ cs))
        (omega (arith, h, length-drop embed_batch_size (c ∷ cs))))
    ∙ take-append-drop embed_batch_size (c ∷ cs)

-- the chunk that a row holds
abbrev pub held : {V : Type 0} → DocumentChunk V → Chunk
held r = record { page = r.page; position = r.position; content = r.content }

-- an assignment to the rows of one key sets their status
pub set_rows :
    (f : Document → Document) (id : ℕ) (s : DocumentStatus) (ds : List Document)
    → ((d : Document) → (f d).status ≡ s)
    → ((d : Document) → (f d).id ≡ d.id)
    → All (λ d. (d.id ≢ id) ⊎ (d.status ≡ s)) (map (λ d. if d.id == id then f d else d) ds)
set_rows f id s [] h k = tt
set_rows f id s (d ∷ ds) h k = elim (Bool-cases (d.id == id)) [
  | inl same ↦ rw same (inr (h d), set_rows f id s ds h k)
  | inr differ ↦ rw differ (inl (λ e. absurd (ground arith)), set_rows f id s ds h k)
]

module _ {V W Data : Type 0} (pipe : Pipeline V W Data) (document : Document) where
  some_inj : (a b : List (DocumentChunk V)) → some a ≡ some b → a ≡ b
  some_inj a b e = cc

  zip_rows-held :
      (cs : List Chunk) (es : List V) (rows : List (DocumentChunk V))
      → zip_rows pipe.tenant document.id cs es ≡ some rows
      → map held rows ≡ cs
  unfolding zip_rows
  zip_rows-held [] [] rows e = ap (map held) (sym (some_inj [] rows e))
  zip_rows-held [] (v ∷ es) rows e = absurd (cc)
  zip_rows-held (c ∷ cs) [] rows e = absurd (cc)
  zip_rows-held (c ∷ cs) (v ∷ es) rows e =
      elim (Option-cases (zip_rows pipe.tenant document.id cs es)) [
        | inl short ↦ absurd (cc (rw (zip_rows, short) at e))
        | inr (more, f) ↦
            ap (map held) (
              sym (
                some_inj (chunk_row pipe.tenant document.id c v ∷ more) rows
                  (rw (zip_rows, f) at e)))
            ∙ ap (◌∷◌ c) (zip_rows-held cs es more f)
      ]

  zip_rows_own :
      (cs : List Chunk) (es : List V) (rows : List (DocumentChunk V))
      → zip_rows pipe.tenant document.id cs es ≡ some rows
      → All (λ r. of_document pipe.tenant document.id r ≡ true) rows
  unfolding zip_rows
  zip_rows_own [] [] rows e =
      subst (All (λ r. of_document pipe.tenant document.id r ≡ true)) (some_inj [] rows e) tt
  zip_rows_own [] (v ∷ es) rows e = absurd (cc)
  zip_rows_own (c ∷ cs) [] rows e = absurd (cc)
  zip_rows_own (c ∷ cs) (v ∷ es) rows e =
      elim (Option-cases (zip_rows pipe.tenant document.id cs es)) [
        | inl short ↦ absurd (cc (rw (zip_rows, short) at e))
        | inr (more, f) ↦
            subst (All (λ r. of_document pipe.tenant document.id r ≡ true))
              (some_inj (chunk_row pipe.tenant document.id c v ∷ more) rows (rw (zip_rows, f) at e))
              (ground arith, zip_rows_own cs es more f)
      ]

  -- The rows that a step has added, and the chunks that they hold.
  abbrev Added : List Chunk → DocumentDb V → DocumentDb V → Type 0
  Added cs db db' =
      (rows : List (DocumentChunk V)) × (db'.tables.chunks ≡ db.tables.chunks ++ rows)
      × (map held rows ≡ cs)
      × All (λ r. of_document pipe.tenant document.id r ≡ true) rows
      × (db'.tables.documents ≡ db.tables.documents)

  add_rows-Added :
      (cs : List Chunk) (o : Option (List (DocumentChunk V))) (db : DocumentDb V) (w : W)
      → ((rows : List (DocumentChunk V))
          → o ≡ some rows
          → (map held rows ≡ cs) × All (λ r. of_document pipe.tenant document.id r ≡ true) rows)
      → (add_rows pipe document o (db, w)).0 ≡ value tt
      → Added cs db (add_rows pipe document o (db, w)).1.0
  unfolding add_rows
  add_rows-Added cs none db w h e = absurd (cc)
  add_rows-Added cs (some rows) db w h e = (rows, refl, (h rows refl).0, (h rows refl).1, refl)

  embedded-Added :
      (batch : List Chunk) (db : DocumentDb V) (p : (Tried (EmbeddingResult V) × ℕ) × W)
      → (embedded pipe document batch db p).0 ≡ value tt
      → Added batch db (embedded pipe document batch db p).1.0
  unfolding embedded
  embedded-Added batch db ((raises f, latency), w) e = absurd (cc)
  embedded-Added batch db ((value r, latency), w) e =
      add_rows-Added batch (zip_rows pipe.tenant document.id batch r.embeddings) _ w
        (λ rows g.
          (zip_rows-held batch r.embeddings rows g, zip_rows_own batch r.embeddings rows g))
        e

  unit_value : (o : Tried (Unit {0})) (u : Unit {0}) → o ≡ value u → o ≡ value tt
  unit_value o tt e = e

  embed_all-Added :
      (bs : List (List Chunk)) (db : DocumentDb V) (w : W)
      → (embed_all pipe document bs (db, w)).0 ≡ value tt
      → Added (joined bs) db (embed_all pipe document bs (db, w)).1.0
  unfolding embed_all
  embed_all-Added [] db w e = ([], sym (append-nil db.tables.chunks), refl, tt, refl)
  embed_all-Added (b ∷ bs) db w e = elim (Tried-cases (embed_batch pipe document b (db, w)).0) [
    | inr (f, g) ↦ absurd (cc (rw (embed_all, g) at e))
    | inl (u, g) ↦
        let next : DocumentDb V × W = (embed_batch pipe document b (db, w)).1 in
        let (rows, c, h, o, d) =
          embedded-Added b db (pipe.embed (map (λ c. c.content) b) w)
            (unfold embed_batch in unit_value _ u g) in
        let (more, c', h', o', d') = embed_all-Added bs next.0 next.1 (rw (embed_all, g) at e) in
        rw (embed_all, g)
          (
            rows ++ more,
            c'
                ∙ ap (λ x. x ++ more) (unfold embed_batch in c)
                ∙ append_assoc db.tables.chunks rows more,
            map-append held rows more ∙ ap (λ x. x ++ map held more) h ∙ ap (λ x. b ++ x) h',
            All-append (λ r. of_document pipe.tenant document.id r ≡ true) rows more o o',
            d' ∙ (unfold embed_batch in d),
          )
  ]

  assigned_chunks :
      (m : Option Metadata) (t : Tables V) → (assigned pipe document m t).chunks ≡ t.chunks
  assigned_chunks none t = refl
  assigned_chunks (some m) t = refl

  completed_chunks :
      (db : DocumentDb V) (p : (Awaited × ℕ) × W)
      → (completed pipe document db p).1.0.tables.chunks ≡ db.tables.chunks
  unfolding completed
  completed_chunks db ((returned c, latency), w) = assigned_chunks (pipe.loads c.text) db.tables
  completed_chunks db ((failed, latency), w) = refl
  completed_chunks db ((interrupted, latency), w) = refl

  extract_metadata_chunks :
      (complete : Option (Text → W → (Awaited × ℕ) × W)) (pages : List Page) (db : DocumentDb V)
      (w : W)
      → (extract_metadata pipe document complete pages (db, w)).1.0.tables.chunks ≡ db.tables.chunks
  unfolding extract_metadata
  extract_metadata_chunks none pages db w = refl
  extract_metadata_chunks (some complete) pages db w = completed_chunks db (complete _ w)

  mark_ready_lem :
      (p : Tried (Unit {0}) × (DocumentDb V × W))
      → (mark_ready pipe document p).0 ≡ value tt
      → let db' = (mark_ready pipe document p).1.0 in
        (db'.saved.chunks ≡ p.1.0.tables.chunks)
        × All (λ d. (d.id ≢ document.id) ⊎ (d.status ≡ ready)) db'.saved.documents
        × (db'.usage.pending ≡ [])
  unfolding mark_ready commit_all commit
  mark_ready_lem (raises f, s) e = absurd (cc)
  mark_ready_lem (value u, (db, w)) e = (
    refl,
    set_rows (λ d. record d { status = ready }) document.id ready db.tables.documents (λ d. refl)
        (λ d. refl),
    refl,
  )

  then_metadata_lem :
      (pages : List Page) (p : Tried (Unit {0}) × (DocumentDb V × W))
      → (then_metadata pipe document pages p).0 ≡ value tt
      → let db' = (then_metadata pipe document pages p).1.0 in
        (p.0 ≡ value tt)
        × (db'.saved.chunks ≡ p.1.0.tables.chunks)
        × All (λ d. (d.id ≢ document.id) ⊎ (d.status ≡ ready)) db'.saved.documents
        × (db'.usage.pending ≡ [])
  unfolding then_metadata
  then_metadata_lem pages (raises f, s) e = absurd (cc)
  then_metadata_lem pages (value u, (db, w)) e =
      let (c, r, n) =
        mark_ready_lem (extract_metadata pipe document pipe.complete pages (db, w)) e in
      (refl, c ∙ extract_metadata_chunks pipe.complete pages db w, r, n)

  -- Where ingestion succeeds: the committed chunks are those that are not of this document as they were
  -- before, and then rows that hold the new chunks, one for each, in their order; every row of the
  -- document is ready; and no usage row is left uncommitted.
  pub ingest_chunks-replaced :
      (pages : List Page) (chunks : List Chunk) (db : DocumentDb V) (w : W)
      → (ingest_chunks pipe document pages chunks (db, w)).0 ≡ value tt
      → let db' = (ingest_chunks pipe document pages chunks (db, w)).1.0 in
        (rows : List (DocumentChunk V)) × (db'.saved.chunks
          ≡ keep_if (λ c. not (of_document pipe.tenant document.id c)) db.tables.chunks ++ rows)
        × (map held rows ≡ chunks)
        × All (λ r. of_document pipe.tenant document.id r ≡ true) rows
        × All (λ d. (d.id ≢ document.id) ⊎ (d.status ≡ ready)) db'.saved.documents
        × (db'.usage.pending ≡ [])
  unfolding ingest_chunks delete_for_document
  ingest_chunks-replaced pages [] db w e = absurd (cc)
  ingest_chunks-replaced pages (c ∷ cs) db w e =
      let start : DocumentDb V = record db {
        tables = delete_for_document pipe.tenant document.id db.tables;
      } in
      let ran = embed_all pipe document (batches (length (c ∷ cs)) (c ∷ cs)) (start, w) in
      let (fine, kept, r, n) = then_metadata_lem pages ran e in
      let (rows, added, h, o, d) =
        embed_all-Added (batches (length (c ∷ cs)) (c ∷ cs)) start w fine in
      (rows, kept ∙ added, h ∙ joined-batches (length (c ∷ cs)) (c ∷ cs) (omega arith), o, r, n)
