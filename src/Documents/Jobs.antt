-- ===== src/Documents/Jobs.antt =====
-- The ingestion job and the routes of documents: apps/api/src/domains/documents/jobs.py and router.py.
use saas_genai_starter.Common.{ℕ, Option, none, some, String, take, codes}
use saas_genai_starter.Core.Scoped.{find}
use saas_genai_starter.Llm.Types.{llm_error, Tried, value, raises}
use saas_genai_starter.Llm.Errors.{provider_not_configured}
use saas_genai_starter.Documents.Models.{Document, documents}
use saas_genai_starter.Documents.Ingestion.{
  DocumentDb, Pipeline, update, set_failed, commit_all, ingest_document,
}

module _ {V W Data : Type 0} (pipe : Pipeline V W Data) where
  abbrev pub marked : String → Option Document → DocumentDb V → DocumentDb V
  marked message none db = db
  marked message (some d) db =
      commit_all (record db {
        tables = update d.id (set_failed pipe d (take 2000 (codes message))) db.tables;
      })

  -- `_mark_failed`
  unfoldable pub mark_failed : ℕ → String → DocumentDb V × W → DocumentDb V × W
  unfolding find commit_all
  mark_failed id message (db, w) =
      (marked message (find documents pipe.tenant id db.tables.documents) db, w)

  -- How the resolution of the embedder and of the chat provider end; the pipeline has both, and its
  -- `complete` is not used where the second is not configured.
  unfoldable pub resolved_chat :
      ℕ → Tried (Unit {0}) → DocumentDb V × W → Tried (Unit {0}) × (DocumentDb V × W)
  unfolding ingest_document
  resolved_chat id (value u) s = ingest_document pipe id s
  resolved_chat id (raises (llm_error (provider_not_configured m))) s =
      ingest_document (record pipe { complete = none }) id s
  resolved_chat id (raises f) s = (raises f, s)

  unfoldable pub run_ingest_job :
      ℕ
      → Tried (Unit {0})
      → Tried (Unit {0})
      → DocumentDb V × W
      → Tried (Unit {0}) × (DocumentDb V × W)
  unfolding mark_failed resolved_chat
  run_ingest_job id (value u) chat s = resolved_chat id chat s
  run_ingest_job id (raises (llm_error (provider_not_configured m))) chat s =
      (value tt, mark_failed id m s)
  run_ingest_job id (raises f) chat s = (raises f, s)
