-- ===== src/LlmSettings/Validity.antt =====
-- Stored settings always name a provider and a model of the catalog.
use saas_genai_starter.Common.{
  ℕ, true, false, not, ◌&&◌, Option, none, some, List, [], ◌∷◌, String, arith, ◌≡◌, refl, inl, inr,
  ◌==◌, get, All, Bool-cases,
}
use saas_genai_starter.Core.Action.{Result, ok, err, crash, modify, pure, ◌>>=◌, ◌>>◌}
use saas_genai_starter.Core.Crypto.{Secrets, Attempt, done, failed}
use saas_genai_starter.Catalog.{
  ChatProviderInfo, chat_providers, embedding_providers, key_fields, validate_chat_choice,
  validate_embedding_choice,
}
use saas_genai_starter.Tenants.Models.{Role}
use saas_genai_starter.LlmSettings.Service.{
  OrgLlmSettings, LlmSettingsUpdate, default_settings, or_default, get_or_default, save, value_or,
  given, pick_model, default_model, changed, or_crash, set_keys, write_settings, is_admin, update,
}

unfoldable pub IsValid : OrgLlmSettings → Type 0
IsValid s =
    (validate_chat_choice s.chat_provider s.chat_model ≡ true)
    × (validate_embedding_choice s.embedding_provider ≡ true)

default_settings-IsValid : (tenant : ℕ) → IsValid (default_settings tenant)
unfolding IsValid default_settings validate_chat_choice validate_embedding_choice chat_providers
    embedding_providers
default_settings-IsValid tenant = (refl, refl)

get_or_default-IsValid :
    (tenant : ℕ) (rows : List OrgLlmSettings)
    → All IsValid rows
    → IsValid (get_or_default tenant rows)
unfolding get_or_default or_default
get_or_default-IsValid tenant [] h = default_settings-IsValid tenant
get_or_default-IsValid tenant (s ∷ rows) h = elim (Bool-cases (s.tenant_id == tenant)) [
  | inl e ↦ rw e h.0
  | inr e ↦ rw e (get_or_default-IsValid tenant rows h.1)
]

save-IsValid :
    (s : OrgLlmSettings) (rows : List OrgLlmSettings)
    → IsValid s
    → All IsValid rows
    → All IsValid (save s rows)
unfolding save
save-IsValid s [] hs h = (hs, tt)
save-IsValid s (r ∷ rows) hs h = elim (Bool-cases (r.tenant_id == s.tenant_id)) [
  | inl e ↦ rw e (hs, h.1)
  | inr e ↦ rw e (h.0, save-IsValid s rows hs h.1)
]

value_or-given : (v : Option String) (d : String) → given v ≡ false → value_or v d ≡ d
unfolding given value_or
value_or-given none d h = refl
value_or-given (some v) d h = ground arith

value_or_same : (v : Option String) (d e : String) → given v ≡ true → value_or v d ≡ value_or v e
unfolding given value_or
value_or_same none d e h = ground arith
value_or_same (some v) d e h = ground arith

embedding_valid :
    (v : Option String) (d : String)
    → (given v && not (validate_embedding_choice (value_or v ""))) ≡ false
    → validate_embedding_choice d ≡ true
    → validate_embedding_choice (value_or v d) ≡ true
unfolding given value_or
embedding_valid none d h hd = hd
embedding_valid (some v) d h hd = ground arith

default_model_pure :
    (info : Option ChatProviderInfo) (rows : List OrgLlmSettings)
    → (default_model info rows).1 ≡ rows
unfolding default_model
default_model_pure none rows = refl
default_model_pure (some info) rows = refl

pub pick_model_pure :
    (payload : LlmSettingsUpdate) (settings : OrgLlmSettings) (rows : List OrgLlmSettings)
    → (pick_model payload settings rows).1 ≡ rows
unfolding pick_model default_model
pick_model_pure payload settings rows =
    elim (Bool-cases (given payload.chat_provider && not (given payload.chat_model))) [
      | inl e ↦
          rw e (default_model_pure (get (value_or payload.chat_provider "") chat_providers) rows)
      | inr e ↦ rw e refl
    ]

module _ (secrets : Secrets) (strip : String → String) where
  changed-IsValid :
      (payload : LlmSettingsUpdate) (settings : OrgLlmSettings) (model : String)
      (columns : String → Option String)
      → IsValid settings
      → validate_chat_choice (value_or payload.chat_provider settings.chat_provider) model ≡ true
      → (given payload.embedding_provider
          && not (validate_embedding_choice (value_or payload.embedding_provider "")))
        ≡ false
      → IsValid (changed payload model columns settings)
  unfolding IsValid changed
  changed-IsValid payload settings model columns hs hc he =
      (hc, embedding_valid payload.embedding_provider settings.embedding_provider he hs.1)

  stored-IsValid :
      (payload : LlmSettingsUpdate) (settings : OrgLlmSettings) (model : String)
      (columns : Attempt (String → Option String)) (rows : List OrgLlmSettings)
      → ((c : String → Option String) → IsValid (changed payload model c settings))
      → All IsValid rows
      → All IsValid
          ((or_crash columns >>= λ c.
              modify (save (changed payload model c settings))
              >> pure (changed payload model c settings))
            rows).1
  unfolding or_crash
  stored-IsValid payload settings model (failed t) rows valid h = h
  stored-IsValid payload settings model (done c) rows valid h =
      save-IsValid (changed payload model c settings) rows (valid c) h

  write_settings-IsValid :
      (payload : LlmSettingsUpdate) (settings : OrgLlmSettings) (model : String)
      (rows : List OrgLlmSettings)
      → IsValid settings
      → All IsValid rows
      → All IsValid ((write_settings secrets strip payload settings model rows).1)
  unfolding write_settings
  write_settings-IsValid payload settings model rows hs h =
      elim (Bool-cases
        (validate_chat_choice (value_or payload.chat_provider settings.chat_provider) model)) [
          | inr e ↦ rw e h
          | inl e ↦
              elim (Bool-cases (
                given payload.embedding_provider
                && not (validate_embedding_choice (value_or payload.embedding_provider "")))) [
                  | inl e' ↦ rw (e, e') h
                  | inr e' ↦
                      rw (e, e')
                        (stored-IsValid payload settings model
                          (set_keys secrets strip key_fields payload.key settings.encrypted_key)
                          rows (λ c. changed-IsValid payload settings model c hs e e') h)
                ]
        ]

  picked-IsValid :
      (payload : LlmSettingsUpdate) (settings : OrgLlmSettings) (rows : List OrgLlmSettings)
      (p : Result String × List OrgLlmSettings)
      → p.1 ≡ rows
      → IsValid settings
      → All IsValid rows
      → All IsValid (
          (elim (p.0) as (λ r. Result OrgLlmSettings × List OrgLlmSettings) [
            | ok model ↦ write_settings secrets strip payload settings model (p.1)
            | err e ↦ (err e, p.1)
            | crash t ↦ (crash t, p.1)
          ]).1)
  picked-IsValid payload settings rows (ok model, t) e hs h =
      rw e (write_settings-IsValid payload settings model rows hs h)
  picked-IsValid payload settings rows (err x, t) e hs h = rw e h
  picked-IsValid payload settings rows (crash x, t) e hs h = rw e h

  -- Whatever an update answers, the stored settings are all valid afterwards if they were before: their
  -- chat model is one of their provider's, and their embedding provider is in the catalog.
  pub update-IsValid :
      (tenant : ℕ) (role : Role) (payload : LlmSettingsUpdate) (rows : List OrgLlmSettings)
      → All IsValid rows
      → All IsValid ((update secrets strip tenant role payload rows).1)
  unfolding update
  update-IsValid tenant role payload rows h = elim (Bool-cases (is_admin role)) [
    | inr e ↦ rw e h
    | inl e ↦ rw e (
        picked-IsValid payload (get_or_default tenant rows) rows
          (pick_model payload (get_or_default tenant rows) rows)
          (pick_model_pure payload (get_or_default tenant rows) rows)
          (get_or_default-IsValid tenant rows h) h)
  ]
