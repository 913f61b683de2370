-- ===== src/Lib.antt =====
-- The API of this starter (apps/api/src) lets organizations chat with language models about their
-- own documents. This library models the parts that decide: who may change an organization, how
-- provider calls are retried, what a call costs and which row records it, how documents are split,
-- how the settings choose a provider, how billing events change an organization's plan, how many
-- requests an organization may make, whose token a request bears, where a document's file is
-- stored, how it is uploaded, ingested and searched, and how the agent answers in a conversation.
--
-- Parts and sources, each under apps/api/src:
--
--   Core: core/errors.py (Core.Errors), core/crypto.py (Core.Crypto), the actions of a request on
--     its tables (Core.Action), and core/repository.py, the repository that every table of a tenant
--     goes through (Core.Scoped). `request` keeps the tables of a handler that returns, which
--     commits, and drops those of one that raises.
--   Llm: llm/errors.py (Llm.Errors), llm/types.py (Llm.Types), llm/openai_provider.py
--     (Llm.OpenAi), the translation of messages and errors and the assembly of a streamed answer,
--     llm/anthropic_provider.py (Llm.Anthropic), and the embedding calls of llm/voyage_provider.py
--     and llm/cohere_provider.py (Llm.Embedders).
--   Resilience: llm/resilience.py. RetryPolicy.delay_for (Resilience.Policy), CircuitBreaker
--     (Resilience.Breaker), call_with_retries (Resilience.Retries), ResilientChatProvider.stream
--     (Resilience.Streams).
--   Pricing: llm/pricing.py, the table PRICING and cost_for.
--   Catalog: llm/catalog.py, the providers and models that can be chosen.
--   Tenants: domains/tenants. The rows (Models), TenantRepository (Repository), TenantService
--     (Service, Invitations) and the routes that change the tables (Requests); core/tenancy.py, the
--     tenant of a request (Context).
--   Billing: domains/billing, handle_event and its lookups (Billing.Events), the checkout and the
--     portal with their routes (Billing.Checkout), and the webhook's door (Billing.Webhook).
--   Chunking: domains/documents/parsing.py, extract_pages and chunk_pages.
--   Usage: domains/usage/models.py (Usage.Session) and domains/usage/service.py (Usage.Service).
--   LlmSettings: domains/llm_settings, the settings and their update (Service), and the resolution
--     of a provider through the cache (Resolver), both with the exceptions of core/crypto.py.
--   RateLimit: llm/rate_limit.py, TenantRateLimiter, over what it uses of Redis (RateLimit.Store).
--   Documents: domains/documents, the rows (Models), RetrievalService (Retrieval), ingest_document
--     with its pipeline (Ingestion), the job that calls it (Jobs), and the routes of upload and
--     deletion (Router).
--   Auth: core/auth.py, the cache of the signing keys (Auth.Jwks) and get_current_user
--     (Auth.Tokens).
--   Storage: core/storage.py, the paths of LocalDiskStorage (Storage.Paths) and its files
--     (Storage.Disk); Storage.Tenancy has the storage_path of an upload.
--   Background: core/queue.py and domains/jobs/router.py, the Cloud Tasks queue and the endpoint
--     that it calls (Background.Push), and worker.py (Background.Worker).
--   Admin: domains/admin/router.py, the overview of all organizations and the update of their
--     limits.
--   Chat: domains/chat, the rows (Models), AgentToolbox (Toolbox), run_agent (Agent), ChatService
--     (Service) and send_message (Stream).
--
-- How they interact: a message is sent through the limiter, and the agent's streams go through
-- Usage.Service and its searches through Documents.Retrieval; a route resolves the organization's
-- provider (LlmSettings.Resolver), which wraps a client in the retries of Resilience; the calls go
-- through Usage.Service, which prices them (Pricing) and writes their rows; the settings are
-- validated against the Catalog; a webhook (Billing) changes the plan of a row of Tenants; a
-- request's user comes from Auth and its tenant from Tenants.Context, which carries the overrides
-- that Admin writes; an upload saves its blob in the Storage and queues the job that ingests it.
--
-- How the code is modelled. Ids are only compared and are natural numbers. Times are natural
-- numbers, milliseconds in Resilience, Usage, RateLimit and Llm.OpenAi, and seconds in Tenants.
-- Prices are in thousandths of a USD per million tokens, and costs in millionths of a USD, which is
-- exact for the table's entries. A table is the list of its rows in the order of insertion, a
-- statement a filter over it, and an update of a loaded row a change of the rows of its key. An
-- exception is an error of Core.Errors or Llm.Errors, or a crash for any other.
--
-- What is not under the repository is a parameter: the wrapped provider is the sequence of its
-- replies or streams; random.uniform, str.lower, the str.strip of a key, SHA-256, Fernet
-- (Core.Crypto.Secrets), the UUID parser, PyMuPDF, PyJWT, Google's check of a token, Stripe's check
-- of a signature and the UTF-8 decoder are functions. What Stripe's calls and the Anthropic SDK
-- answer, and what the auth service would answer to a fetch of its keys, are data. A user id of a
-- token is a text, and Auth.Tokens.subject_id is its number. Where a theorem needs a law of one (a
-- draw lies between its bounds, the storage loads what it saves) the law is a hypothesis. The
-- limiter's commands of Redis are a record of operations, each of which may fail, and
-- RateLimit.Store.Reliable has their documented behaviour on a server that can be reached. What the
-- agent is given of its provider, its embedder and the rows is the record Chat.Toolbox.Agent, and
-- its searches are Documents.Retrieval.search; that a stream ends with its StreamEnd is a
-- hypothesis of its accounts. The storage, PyMuPDF's refusals, the embedder, json.loads and the
-- distance of two vectors are parameters of Documents. Llm.OpenAi has the exchange over HTTP and
-- the decoded JSON of its lines as data.
--
-- Fuel: the loop of chunk_pages over one page runs on one more than the page's number of words;
-- each round moves the start by 332 words, and Chunking.Pages shows that the fuel is enough. The
-- retry loops run on the attempts that are left, and the agent on the tool rounds that are left.
-- The batches of an ingestion run on the number of chunks, each of them taking at least one. The
-- worker's tries, the killed ones with them, run on the number of runs, and Background.Worker shows
-- that three are enough.
--
-- Not modelled: calls run one after the other, so two tasks do not interleave between a check of
-- the breaker and its outcome, nor two requests between a read and a commit, nor two checks of the
-- limiter between its count and its record. Stripe's ids of new customers are new, so the unique
-- customers of the organizations are checked at the commit of the webhook only; the object of an
-- event is the dict that Stripe sends. The client of a streamed answer reads to the end. A job of
-- the worker does not time out. The files have no symbolic links. Two requests do not refresh the
-- signing keys at once. The vectors' dimension, the list of recent documents, the Google bucket,
-- the dashboard of usage, the routes that only show a conversation or the settings, the evaluations
-- and the infrastructure of core are not in the library, and neither is the web application, which
-- is another language. Logging, tracing spans, e-mails and response schemas are left out.
pub mod Auth
pub mod Common
pub mod Llm
pub mod Core
pub mod Resilience
pub mod Pricing
pub mod Catalog
pub mod Tenants
pub mod Billing
pub mod Chunking
pub mod Usage
pub mod LlmSettings
pub mod RateLimit
pub mod Documents
pub mod Storage
pub mod Background
pub mod Admin
pub mod Chat
