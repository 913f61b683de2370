-- ===== src/Documents/Removal.antt =====
-- What `delete_document` leaves.
use saas_genai_starter.Common.{
  ℕ, ◌≡◌, refl, sym, ap, subst, ◌⊎◌, inl, inr, true, false, not, Bool-cases, Option, none, some,
  List, [], ◌∷◌, String, ◌==◌, keep_if, first, All,
}
use saas_genai_starter.Core.Errors.{not_found}
use saas_genai_starter.Core.Action.{Result, ok, err, crash, or_raise, ◌>>=◌, ◌>>◌}
use saas_genai_starter.Core.Scoped.{find, delete}
use saas_genai_starter.Tenants.Context.{TenantContext}
use saas_genai_starter.Documents.Models.{Document, DocumentChunk, documents}
use saas_genai_starter.Documents.Ingestion.{Tables, commit_all, rollback, delete_for_document}
use saas_genai_starter.Documents.Router.{
  BlobStorage, Site, closing, on_store, set_tables, commit_site, get_document, dropped,
  drop_document, remove_document, delete_document,
}
use saas_genai_starter.Documents.Uploads.{is_ok}

found_facts :
    (tenant id : ℕ) (rows : List Document) (d : Document)
    → first (keep_if (λ x. x.id == id) (keep_if (λ x. x.tenant_id == tenant) rows)) ≡ some d
    → ((d.id == id) ≡ true) × ((d.tenant_id == tenant) ≡ true)
found_facts tenant id [] d e = absurd (cc)
found_facts tenant id (x ∷ rows) d e = elim (Bool-cases (x.tenant_id == tenant)) [
  | inr foreign ↦ found_facts tenant id rows d (rw foreign at e)
  | inl own ↦ elim (Bool-cases (x.id == id)) [
    | inr other ↦ found_facts tenant id rows d (rw (own, other) at e)
    | inl hit ↦
        let same : x ≡ d = same_row (rw (own, hit) at e) in
        subst (λ y. ((y.id == id) ≡ true) × ((y.tenant_id == tenant) ≡ true)) same (hit, own)
  ]
]
  where
    same_row : {a b : Document} → some a ≡ some b → a ≡ b
    same_row e = cc

kept_chunks :
    {V : Type 0} (id : ℕ) (cs : List (DocumentChunk V))
    → All (λ c. (c.document_id == id) ≡ false) (keep_if (λ c. not (c.document_id == id)) cs)
kept_chunks id [] = tt
kept_chunks id (c ∷ cs) = elim (Bool-cases (c.document_id == id)) [
  | inl e ↦ rw e (kept_chunks id cs)
  | inr e ↦ rw e (e, kept_chunks id cs)
]

module _ {V W Data : Type 0} (blobs : BlobStorage W Data) (size : Data → ℕ)
    (uuid_text decimal : ℕ → String) (max_bytes : ℕ) (tenant : TenantContext) (id : ℕ)
    (s : Site V W) where
  -- Nothing of the rows is changed.
  abbrev pub Untouched : Result (Unit {0}) × Site V W → Type 0
  Untouched x = (is_ok x.0 ≡ false) × (x.1.db ≡ rollback s.db)

  -- The tenant's document is gone, with its chunks and its blob; all other documents are there.
  abbrev pub Removed : Result (Unit {0}) × Site V W → Type 0
  Removed x =
      (d : Document) × (find documents tenant.organization_id id s.db.tables.documents ≡ some d)
      × (x.0 ≡ ok tt)
      × (blobs.delete d.storage_path s.store ≡ (ok tt, x.1.store))
      × (x.1.db.saved.documents ≡ keep_if (λ y. not (y.id == d.id)) s.db.tables.documents)
      × All (λ c. (c.document_id == d.id) ≡ false) x.1.db.saved.chunks

  Gone : Result (Unit {0}) × Site V W → Type 0
  Gone x = ((is_ok x.0 ≡ false) × (rollback x.1.db ≡ rollback s.db)) ⊎ Removed x

  closed :
      (x : Result (Unit {0}) × Site V W)
      → Gone x
      → Untouched (closing blobs (λ v. x) s) ⊎ Removed (closing blobs (λ v. x) s)
  unfolding closing Gone
  closed (ok d, v) (inl o) = absurd (cc (o.0))
  closed (ok d, v) (inr o) = inr o
  closed (err e, v) (inl o) = inl (refl, o.1)
  closed (err e, v) (inr o) = absurd (cc (o.2))
  closed (crash t, v) (inl o) = inl (refl, o.1)
  closed (crash t, v) (inr o) = absurd (cc (o.2))

  abbrev without : Document → Tables V → Tables V
  without d t = record {
    documents = keep_if (λ y. not (y.id == d.id)) t.documents;
    chunks = keep_if (λ c. not (c.document_id == d.id)) t.chunks;
  }

  delete_own :
      (d : Document) (rows : List Document)
      → (d.tenant_id == tenant.organization_id) ≡ true
      → delete documents tenant.organization_id d rows
        ≡ some (keep_if (λ y. not (y.id == d.id)) rows)
  unfolding delete
  delete_own d rows o = rw o refl

  dropped_own :
      (d : Document) (v : Site V W)
      → (d.tenant_id == tenant.organization_id) ≡ true
      → ((drop_document blobs size uuid_text decimal max_bytes tenant d >> commit_site blobs) v)
        ≡ (ok tt, record v { db = commit_all (record v.db { tables = without d v.db.tables }) })
  unfolding drop_document commit_site
  dropped_own d v o =
      ap
        (λ f.
          ((λ z. dropped blobs size uuid_text decimal max_bytes tenant d f z) >> commit_site blobs)
            v)
        (delete_own d v.db.tables.documents o)

  removed :
      (d : Document) (gone : Result (Unit {0}) × W)
      → find documents tenant.organization_id id s.db.tables.documents ≡ some d
      → (d.tenant_id == tenant.organization_id) ≡ true
      → blobs.delete d.storage_path s.store ≡ gone
      → Gone (
          (set_tables blobs (delete_for_document tenant.organization_id d.id)
              >> (on_store blobs (λ w. gone)
                  >> (drop_document blobs size uuid_text decimal max_bytes tenant d
                      >> commit_site blobs)))
            s)
  unfolding set_tables on_store delete_for_document rollback
  removed d (err e, w) f o k = unfold Gone in inl (refl, refl)
  removed d (crash t, w) f o k = unfold Gone in inl (refl, refl)
  removed d (ok u, w) f o k =
      subst Gone (sym (dropped_own d _ o))
        (unfold Gone commit_all in inr (d, f, refl, k, refl, kept_chunks d.id _))

  searched :
      (found : Option Document)
      → find documents tenant.organization_id id s.db.tables.documents ≡ found
      → Gone (
          ((λ v. (or_raise found (not_found "Document not found") v))
              >>= remove_document blobs size uuid_text decimal max_bytes tenant)
            s)
  searched none f = unfold Gone rollback in inl (refl, refl)
  searched (some d) f =
      unfold remove_document on_store in
      removed d (blobs.delete d.storage_path s.store) f
        (found_facts tenant.organization_id id s.db.tables.documents d (unfold find in f)).1 refl

  -- Deleting a document either fails with no row changed, or it was the tenant's own: then its row,
  -- its chunks and its blob are gone, and the rows of all other documents are there.
  pub delete_document-Removed :
      Untouched (delete_document blobs size uuid_text decimal max_bytes tenant id s)
      ⊎ Removed (delete_document blobs size uuid_text decimal max_bytes tenant id s)
  unfolding delete_document get_document
  delete_document-Removed =
      closed _ (searched (find documents tenant.organization_id id s.db.tables.documents) refl)
