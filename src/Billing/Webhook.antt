-- ===== src/Billing/Webhook.antt =====
-- `verify_webhook` and `POST /webhooks/stripe`. The signature check of the Stripe library and the two
-- decoders are arguments, with `none` and `false` for their exceptions.
use saas_genai_starter.Common.{
  ℕ, ◌≡◌, refl, ap, ◌⊎◌, inl, inr, Bool, true, false, not, Bool-cases, Option, none, some, String,
  or_else, if◌then◌else◌, List, [], ◌∷◌, any, ◌&&◌,
}
use saas_genai_starter.Core.Errors.{bad_request, not_found}
use saas_genai_starter.Core.Action.{
  Action, Result, ok, err, crash, pure, raise, raise_if, modify, ◌>>=◌, ◌>>◌,
}
use saas_genai_starter.Tenants.Models.{Organization}
use saas_genai_starter.Billing.Events.{Object, Event, truthy, same_text, read_event, handle_event}
use saas_genai_starter.Billing.Checkout.{
  BillingSettings, World, billing_misconfigured, transaction, require_enabled,
}

-- What `json.loads` returns: a dict, with the text of its `type` (empty where it has none) and the object
-- of its data, or another value.
pub data Json : Type 0 where
  object : String → Object → Json
  other : Json

-- No other row has the customer of a row.
unfoldable pub unique_customers : List Organization → Bool
unique_customers [] = true
unique_customers (o ∷ os) =
    not (any (λ p. same_text o.stripe_customer_id p.stripe_customer_id) os) && unique_customers os

-- The unique constraint on stripe_customer_id refuses the rows at the commit.
unfoldable pub commit_customers : Action World (Unit {0})
unfolding unique_customers
commit_customers w = (if unique_customers w.organizations then ok tt else crash "IntegrityError", w)

module _ {Bytes : Type 0} (decode : Bytes → Option String)
    (verify_header : String → String → String → Bool) (loads : Bytes → Option Json)
    (parse_uuid : String → Option ℕ) where
  -- The `try` block: a payload that is no UTF-8, a signature that fails, no JSON.
  unfoldable pub checked : Bytes → String → String → Option Json
  checked payload signature secret = elim (decode payload) [
    | none ↦ none
    | some text ↦ if verify_header text signature secret then loads payload else none
  ]

  unfoldable pub event_of : Option Json → Action World Event
  unfolding read_event
  event_of none = raise (bad_request "Invalid Stripe webhook signature")
  event_of (some other) = raise (bad_request "Malformed Stripe event payload")
  event_of (some (object event_type obj)) = pure (read_event event_type obj)

  unfoldable pub verify_webhook : BillingSettings → Bytes → Option String → Action World Event
  unfolding checked event_of
  verify_webhook settings payload signature =
      raise_if (not (truthy settings.stripe_webhook_secret)) billing_misconfigured
      >> (raise_if (not (truthy signature)) (bad_request "Missing Stripe-Signature header")
          >> event_of
              (checked payload (or_else signature "") (or_else settings.stripe_webhook_secret "")))

  unfoldable pub apply_event : Event → Action World (Unit {0})
  unfolding handle_event commit_customers
  apply_event e =
      modify (λ w. record w { organizations = handle_event parse_uuid e w.organizations })
      >> commit_customers

  -- `POST /webhooks/stripe`
  unfoldable pub stripe_webhook : BillingSettings → Bytes → Option String → Action World (Unit {0})
  unfolding transaction require_enabled verify_webhook apply_event
  stripe_webhook settings payload signature =
      transaction
        (require_enabled settings >> (verify_webhook settings payload signature >>= apply_event))

  -- An event of the payload under a signature that Stripe's library accepts with the secret.
  abbrev pub Verified : BillingSettings → Bytes → Option String → Event → Type 0
  Verified settings payload signature e =
      (text : String) × (given secret : String) × (signature ≡ some given)
      × (settings.stripe_webhook_secret ≡ some secret)
      × (decode payload ≡ some text)
      × (verify_header text given secret ≡ true)
      × (event_type : String) × (obj : Object) × (loads payload ≡ some (object event_type obj))
      × (e ≡ read_event event_type obj)

  -- What a delivery comes to.
  abbrev pub Answered : BillingSettings → Bytes → Option String → World → Type 0
  Answered settings payload signature w =
      ((stripe_webhook settings payload signature w).1 ≡ w)
      ⊎ ((e : Event) × Verified settings payload signature e
          × (settings.billing_enabled ≡ true)
          × (stripe_webhook settings payload signature w
              ≡ (ok tt, record w { organizations = handle_event parse_uuid e w.organizations })))

  module _ (settings : BillingSettings) (payload : Bytes) (signature : Option String)
      (w : World) where
    rolled_back : World → World
    rolled_back v = record v { organizations = w.organizations }

    Changed : Result (Unit {0}) × World → Type 0
    Changed x =
        (e : Event) × Verified settings payload signature e
        × (settings.billing_enabled ≡ true)
        × (x ≡ (ok tt, record w { organizations = handle_event parse_uuid e w.organizations }))

    -- as far as the rollback
    Fine : Result (Unit {0}) × World → Type 0
    Fine x = (x.1 ≡ w) ⊎ (Changed x ⊎ ((t : String) × (x.0 ≡ crash t) × (rolled_back x.1 ≡ w)))

    event_Fine :
        settings.billing_enabled ≡ true
        → (found : Option Json)
        → ((t : String) (o : Object)
            → found ≡ some (object t o)
            → Verified settings payload signature (read_event t o))
        → Fine ((event_of found >>= apply_event) w)
    unfolding Fine Changed event_of apply_event commit_customers rolled_back
    event_Fine on none v = inl refl
    event_Fine on (some other) v = inl refl
    event_Fine on (some (object t o)) v =
        elim (Bool-cases
          (unique_customers (handle_event parse_uuid (read_event t o) w.organizations))) [
            | inl one ↦ rw one (inr (inl (read_event t o, v t o refl, on, refl)))
            | inr two ↦ rw two (inr (inr ("IntegrityError", refl, refl)))
          ]

    checked_lem :
        (text : Option String) (given secret t : String) (o : Object)
        → decode payload ≡ text
        → signature ≡ some given
        → settings.stripe_webhook_secret ≡ some secret
        → checked payload given secret ≡ some (object t o)
        → Verified settings payload signature (read_event t o)
    unfolding checked
    checked_lem none given secret t o d g s h = absurd (cc (rw (checked, d) at h))
    checked_lem (some text) given secret t o d g s h =
        elim (Bool-cases (verify_header text given secret)) [
          | inl v ↦ (text, given, secret, g, s, d, v, t, o, (rw (checked, d, v) at h), refl)
          | inr v ↦ absurd (cc (rw (checked, d, v) at h))
        ]

    verify_Fine :
        settings.billing_enabled ≡ true
        → (given secret : Option String) → signature ≡ given
        → settings.stripe_webhook_secret ≡ secret
        → Fine (
            (raise_if (not (truthy secret)) billing_misconfigured
                >> (raise_if (not (truthy given)) (bad_request "Missing Stripe-Signature header")
                    >> event_of (checked payload (or_else given "") (or_else secret "")))
                >>= apply_event)
              w)
    verify_Fine on none none g s = unfold Fine in inl refl
    verify_Fine on (some given) none g s = unfold Fine in inl refl
    verify_Fine on none (some secret) g s = elim (Bool-cases (truthy (some secret))) [
      | inl t ↦ rw t (unfold Fine in inl refl)
      | inr t ↦ rw t (unfold Fine in inl refl)
    ]
    verify_Fine on (some given) (some secret) g s = elim (Bool-cases (truthy (some secret))) [
      | inr t ↦ rw t (unfold Fine in inl refl)
      | inl t ↦ elim (Bool-cases (truthy (some given))) [
        | inr u ↦ rw (t, u) (unfold Fine in inl refl)
        | inl u ↦
            rw (t, u)
              (event_Fine on (checked payload given secret)
                (λ t o h. checked_lem (decode payload) given secret t o refl g s h))
      ]
    ]

    commit_Fine :
        (x : Result (Unit {0}) × World)
        → Fine x
        → ((transaction (λ v. x) w).1 ≡ w) ⊎ Changed (transaction (λ v. x) w)
    unfolding Fine Changed transaction rolled_back
    commit_Fine (ok a, v) (inl f) = inl f
    commit_Fine (ok a, v) (inr (inl f)) = inr f
    commit_Fine (ok a, v) (inr (inr f)) = absurd (cc (f.1))
    commit_Fine (err a, v) (inl f) = inl (ap rolled_back f)
    commit_Fine (err a, v) (inr (inl f)) = absurd (cc (ap (λ z. z.0) f.3))
    commit_Fine (err a, v) (inr (inr f)) = absurd (cc (f.1))
    commit_Fine (crash a, v) (inl f) = inl (ap rolled_back f)
    commit_Fine (crash a, v) (inr (inl f)) = absurd (cc (ap (λ z. z.0) f.3))
    commit_Fine (crash a, v) (inr (inr f)) = inl f.2

    enabled_Fine :
        (on : Bool)
        → settings.billing_enabled ≡ on
        → ((settings.billing_enabled ≡ true)
            → Fine ((verify_webhook settings payload signature >>= apply_event) w))
        → Fine (
            (raise_if (not on) (not_found "Billing is not enabled")
                >> (verify_webhook settings payload signature >>= apply_event))
              w)
    enabled_Fine false e f = unfold Fine in inl refl
    enabled_Fine true e f = f e

    -- A delivery to the webhook either changes nothing, or billing is enabled, Stripe's library accepts
    -- the signature of the payload's text under the configured secret, and the rows become what
    -- `handle_event` makes of the event that the payload's type and object tell.
    pub stripe_webhook-Verified : Answered settings payload signature w
    unfolding stripe_webhook require_enabled Changed
    stripe_webhook-Verified =
        commit_Fine
          ((require_enabled settings >> (verify_webhook settings payload signature >>= apply_event))
            w)
          (enabled_Fine settings.billing_enabled refl (λ on.
            unfold verify_webhook in
            verify_Fine on signature settings.stripe_webhook_secret refl refl))
