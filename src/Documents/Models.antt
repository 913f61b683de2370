-- ===== src/Documents/Models.antt =====
-- The rows of apps/api/src/domains/documents/models.py. An embedding is of a type `V` of vectors.
use saas_genai_starter.Common.{ℕ, Option, List, String}
use saas_genai_starter.Chunking.Words.{Text}
use saas_genai_starter.Core.Scoped.{TenantOwned}

-- STATUS_UPLOADED, STATUS_PROCESSING, STATUS_READY, STATUS_FAILED
pub data DocumentStatus : Type 0 where
  uploaded processing ready failed : DocumentStatus

pub record Document : Type 0 where
  pub id : ℕ
  pub tenant_id : ℕ
  pub name : String
  pub mime_type : String
  pub size_bytes : ℕ
  pub status : DocumentStatus
  pub error : Option Text
  pub storage_path : String
  pub title : Option Text
  pub language : Option Text
  pub summary : Option Text
  pub topics : Option (List Text)
  pub created_by : ℕ

pub record DocumentChunk (V : Type 0) : Type 0 where
  pub tenant_id : ℕ
  pub document_id : ℕ
  pub page : Option ℕ
  pub position : ℕ
  pub content : Text
  pub embedding : V

abbrev pub documents : TenantOwned Document
documents = record {
  tenant_id = λ d. d.tenant_id;
  stamp = λ t d. record d { tenant_id = t };
  id = λ d. d.id;
}
