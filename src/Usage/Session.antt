-- ===== src/Usage/Session.antt =====
-- The rows of apps/api/src/domains/usage/models.py, and the database session that holds them. A cost is
-- in millionths of a USD, a latency in milliseconds.
use saas_genai_starter.Common.{ℕ, List, [], ◌∷◌, ◌++◌, String}

-- STATUS_OK, STATUS_ERROR, STATUS_DISCONNECTED
pub data Status : Type 0 where
  ok error disconnected : Status

pub record LlmUsage : Type 0 where
  pub tenant_id : ℕ
  pub feature : String
  pub model : String
  pub status : Status
  pub input_tokens : ℕ
  pub output_tokens : ℕ
  pub cache_read_tokens : ℕ
  pub cache_write_tokens : ℕ
  pub cost_usd : ℕ
  pub latency_ms : ℕ
  pub created_by : ℕ

-- The rows that are committed, and those that are flushed and would be lost by a rollback.
pub record Session : Type 0 where
  pub saved : List LlmUsage
  pub pending : List LlmUsage

unfoldable pub add_row : LlmUsage → Session → Session
add_row row s = record s { pending = s.pending ++ row ∷ [] }

-- `db.commit()`
unfoldable pub commit : Session → Session
commit s = record { saved = s.saved ++ s.pending; pending = [] }
