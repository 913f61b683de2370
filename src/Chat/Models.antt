-- ===== src/Chat/Models.antt =====
-- The rows of apps/api/src/domains/chat/models.py. A title is the list of its code points.
use saas_genai_starter.Common.{ℕ, Option, List, String, codes}
use saas_genai_starter.Chunking.Words.{Text}
use saas_genai_starter.Core.Scoped.{TenantOwned}
use saas_genai_starter.Llm.Types.{Role}
use saas_genai_starter.Common.Int.{ℤ}

abbrev pub default_title : Text
default_title = codes "New conversation"

pub record Conversation : Type 0 where
  pub id : ℕ
  pub tenant_id : ℕ
  pub title : Text
  pub created_by : ℕ
  pub created_at : ℕ

-- an item of `citations`, as `citations_payload` makes them
pub record CitedSource : Type 0 where
  pub document_id : ℕ
  pub document_name : String
  pub page : Option ℕ
  pub snippet : Text
  pub score : ℤ

-- `role` is ROLE_USER or ROLE_ASSISTANT.
pub record ChatMessage : Type 0 where
  pub id : ℕ
  pub tenant_id : ℕ
  pub conversation_id : ℕ
  pub role : Role
  pub content : String
  pub citations : Option (List CitedSource)
  pub created_at : ℕ

abbrev pub conversation_model : TenantOwned Conversation
conversation_model = record {
  tenant_id = λ c. c.tenant_id;
  stamp = λ t c. record c { tenant_id = t };
  id = λ c. c.id;
}

abbrev pub message_model : TenantOwned ChatMessage
message_model = record {
  tenant_id = λ m. m.tenant_id;
  stamp = λ t m. record m { tenant_id = t };
  id = λ m. m.id;
}
