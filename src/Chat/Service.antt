-- ===== src/Chat/Service.antt =====
-- `ChatService` and its repositories: apps/api/src/domains/chat/service.py, repository.py.
use saas_genai_starter.Common.{
  ℕ, not, Option, none, some, List, [], ◌∷◌, map, String, codes, ◌==◌, if◌then◌else◌, keep_if, take,
  or_else,
}
use mathlib.Core.List.{reverse}
use saas_genai_starter.Chunking.Words.{Text, is_space}
use saas_genai_starter.Core.Errors.{not_found}
use saas_genai_starter.Core.Action.{Result, ok, err, crash}
use saas_genai_starter.Core.Order.{order_by}
use saas_genai_starter.Core.Scoped.{query, find, add, delete}
use saas_genai_starter.Llm.Types.{Role, plain, Message}
use saas_genai_starter.Usage.Session.{Session, commit}
use saas_genai_starter.Chat.Toolbox.{text_eq}
use saas_genai_starter.Chat.Models.{
  CitedSource, default_title, Conversation, ChatMessage, conversation_model, message_model,
}

abbrev pub title_max_length : ℕ
title_max_length = 60

pub record ChatTables : Type 0 where
  pub conversations : List Conversation
  pub messages : List ChatMessage

-- The database session of a request: what is committed, what it has made of it, and the usage rows.
pub record ChatDb : Type 0 where
  pub saved : ChatTables
  pub tables : ChatTables
  pub usage : Session

-- `db.commit()`
unfoldable pub commit_db : ChatDb → ChatDb
unfolding commit
commit_db db = record { saved = db.tables; tables = db.tables; usage = commit db.usage }

-- The session is closed: what was not committed is lost.
unfoldable pub close_db : ChatDb → ChatDb
close_db db = record {
  saved = db.saved;
  tables = db.saved;
  usage = record db.usage { pending = [] };
}

-- `text.strip()`
unfoldable pub lstrip : Text → Text
unfolding is_space
lstrip [] = []
lstrip (c ∷ cs) = if is_space c then lstrip cs else c ∷ cs

unfoldable pub strip : Text → Text
unfolding lstrip
strip t = reverse (lstrip (reverse (lstrip t)))

module _ (tenant : ℕ) where
  unfoldable pub list_recent : ℕ → ChatTables → List Conversation
  list_recent limit t =
      take limit
        (reverse (order_by (λ c. c.created_at) (query conversation_model tenant t.conversations)))

  unfoldable pub list_conversations : ChatTables → List Conversation
  unfolding list_recent
  list_conversations t = list_recent 50 t

  -- `id` and `now` are what the database fills in.
  unfoldable pub create_conversation : ℕ → ℕ → ℕ → Option Text → ChatTables → ChatTables
  unfolding add
  create_conversation id now created_by title t = record t {
    conversations =
        add conversation_model tenant
          (record {
            id = id;
            tenant_id = tenant;
            title =
                (let given = or_else title [] in if text_eq given [] then default_title else given);
            created_by = created_by;
            created_at = now;
          })
          t.conversations;
  }

  abbrev pub found_or_404 : Option Conversation → Result Conversation
  found_or_404 none = err (not_found "Conversation not found")
  found_or_404 (some c) = ok c

  unfoldable pub get_conversation : ℕ → ChatTables → Result Conversation
  unfolding find
  get_conversation id t = found_or_404 (find conversation_model tenant id t.conversations)

  -- The foreign key deletes the messages of the conversation with it.
  unfoldable pub deleted : ℕ → ChatTables → Option (List Conversation) → Result ChatTables
  deleted id t none = crash "ValueError"
  deleted id t (some rows) = ok (record {
    conversations = rows;
    messages = keep_if (λ m. not (m.conversation_id == id)) t.messages;
  })

  unfoldable pub delete_found : ChatTables → Result Conversation → Result ChatTables
  unfolding deleted delete
  delete_found t (ok c) = deleted c.id t (delete conversation_model tenant c t.conversations)
  delete_found t (err e) = err e
  delete_found t (crash m) = crash m

  unfoldable pub delete_conversation : ℕ → ChatTables → Result ChatTables
  unfolding get_conversation delete_found
  delete_conversation id t = delete_found t (get_conversation id t)

  unfoldable pub list_for_conversation : ℕ → List ChatMessage → List ChatMessage
  list_for_conversation conversation rows =
      order_by (λ m. m.created_at)
        (keep_if (λ m. m.conversation_id == conversation) (query message_model tenant rows))

  abbrev pub or_none : List CitedSource → Option (List CitedSource)
  or_none [] = none
  or_none (c ∷ cs) = some (c ∷ cs)

  abbrev pub new_message : ℕ → ℕ → ℕ → Role → String → List CitedSource → ChatMessage
  new_message id now conversation role content citations = record {
    id = id;
    tenant_id = tenant;
    conversation_id = conversation;
    role = role;
    content = content;
    citations = or_none citations;
    created_at = now;
  }

  unfoldable pub add_message :
      ℕ → ℕ → ℕ → Role → String → List CitedSource → ChatTables → ChatTables
  unfolding add
  add_message id now conversation role content citations t = record t {
    messages =
        add message_model tenant (new_message id now conversation role content citations)
          t.messages;
  }

  -- The row is the one of the conversation's key.
  unfoldable pub maybe_autotitle : Conversation → String → ChatTables → ChatTables
  unfolding strip
  maybe_autotitle c first_user_message t =
      if text_eq c.title default_title
      then record t {
        conversations =
            map
              (λ d.
                if d.id == c.id
                then record d { title = strip (take title_max_length (codes first_user_message)) }
                else d)
              t.conversations;
      }
      else t

-- ROLE_USER is the user's role, and any other is the assistant's
unfoldable pub to_llm_messages : List ChatMessage → List Message
to_llm_messages history = map (λ m. record { role = m.role; content = plain m.content }) history
