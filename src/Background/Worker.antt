-- ===== src/Background/Worker.antt =====
-- The worker of apps/api/src/worker.py: one job, and its tries as ARQ runs them on a `Retry`.
use saas_genai_starter.Common.{
  ℕ, zero, suc, ◌+◌, ◌*◌, ◌≤◌, ◌≡◌, refl, sym, subst, ◌∙◌, ◌⊎◌, inl, inr, Bool, true, false, Option,
  none, some, ltb, if◌then◌else◌, arith,
}
use saas_genai_starter.Llm.Types.{llm_error, exception, cancellation, Tried, value, raises}

abbrev pub max_tries : ℕ
max_tries = 3

abbrev pub retry_delay_seconds : ℕ
retry_delay_seconds = 5

-- How a try ends: the function returns, with or without a dead letter in the log; it raises `Retry`; or
-- it is killed as the worker is stopped.
pub data JobEnd : Type 0 where
  complete dead_letter cancelled : JobEnd
  retry : ℕ → JobEnd

unfoldable pub after_failure : ℕ → JobEnd
after_failure job_try =
    if ltb job_try max_tries then retry (retry_delay_seconds * job_try) else dead_letter

unfoldable pub ingest_document_job : ℕ → Tried (Unit {0}) → JobEnd
unfolding after_failure
ingest_document_job job_try (value u) = complete
ingest_document_job job_try (raises cancellation) = cancelled
ingest_document_job job_try (raises (llm_error e)) = after_failure job_try
ingest_document_job job_try (raises (exception m)) = after_failure job_try

-- any exception but the one that kills a run
abbrev pub is_failure : Tried (Unit {0}) → Bool
is_failure (value u) = false
is_failure (raises cancellation) = false
is_failure (raises (llm_error e)) = true
is_failure (raises (exception m)) = true

-- A job is run again on a `Retry`, and from scratch where its run was killed, each time with the next
-- number of its try; a job that was killed in its last try is given up. The fuel is the number of runs.
module _ {S : Type 0} (attempt : S → Tried (Unit {0}) × S) where
  unfoldable pub run_tries : ℕ → ℕ → S → Option (JobEnd × S)
  unfolding ingest_document_job
  run_tries zero job_try s = none
  run_tries (suc fuel) job_try s =
      let (r, s') = attempt s in
      let rest = run_tries fuel (suc job_try) s' in
      elim (ingest_document_job job_try r) [
        | complete ↦ some (complete, s')
        | dead_letter ↦ some (dead_letter, s')
        | cancelled ↦ if ltb job_try max_tries then rest else some (cancelled, s')
        | retry delay ↦ rest
      ]

  abbrev pub after : ℕ → S → S
  after zero s = s
  after (suc n) s = after n (attempt s).1

  -- The last of `n` runs.
  abbrev pub last_of : ℕ → S → Tried (Unit {0})
  last_of zero s = (attempt s).0
  last_of (suc n) s = last_of n (attempt s).1

  -- `n + 1` runs: the last one returned, or it was the last that is allowed and failed or was killed.
  abbrev pub Ended : ℕ → ℕ → S → JobEnd × S → Type 0
  Ended n left s x =
      (x.1 ≡ after (suc n) s)
      × (((x.0 ≡ complete) × (last_of n s ≡ value tt))
          ⊎ ((x.0 ≡ dead_letter) × (n ≡ left) × (is_failure (last_of n s) ≡ true))
          ⊎ ((x.0 ≡ cancelled) × (n ≡ left) × (last_of n s ≡ raises cancellation)))

  failed_once :
      (fuel job_try : ℕ) (s : S)
      → job_try + fuel ≡ 3
      → ((ltb job_try max_tries ≡ true) × (m : ℕ) × (fuel ≡ suc m))
        ⊎ ((ltb job_try max_tries ≡ false) × (fuel ≡ 0))
  failed_once zero job_try s e = inr (ground (arith, e), refl)
  failed_once (suc m) job_try s e = inl (ground (arith, e), m, refl)

  abbrev Run : ℕ → ℕ → S → Type 0
  Run left job_try s =
      (n : ℕ) × (x : JobEnd × S) × (n ≤ left)
      × (run_tries (suc left) job_try s ≡ some x)
      × Ended n left s x

  stopped :
      (fuel job_try : ℕ) (s : S) (e : JobEnd)
      → (e ≡ complete) ⊎ (e ≡ dead_letter)
      → ingest_document_job job_try (attempt s).0 ≡ e
      → run_tries (suc fuel) job_try s ≡ some (e, (attempt s).1)
  unfolding run_tries
  stopped fuel job_try s e (inl k) h = rw (run_tries, h, k) refl
  stopped fuel job_try s e (inr k) h = rw (run_tries, h, k) refl

  killed :
      (fuel job_try : ℕ) (s : S)
      → ltb job_try max_tries ≡ false
      → ingest_document_job job_try (attempt s).0 ≡ cancelled
      → run_tries (suc fuel) job_try s ≡ some (cancelled, (attempt s).1)
  unfolding run_tries
  killed fuel job_try s last h = rw (run_tries, h, last) refl

  run_again :
      (fuel job_try : ℕ) (s : S)
      → ltb job_try max_tries ≡ true
      → ingest_document_job job_try (attempt s).0 ≡ cancelled
      → run_tries (suc fuel) job_try s ≡ run_tries fuel (suc job_try) (attempt s).1
  unfolding run_tries
  run_again fuel job_try s again h = rw (run_tries, h, again) refl

  retried :
      (fuel job_try : ℕ) (s : S) (delay : ℕ)
      → ingest_document_job job_try (attempt s).0 ≡ retry delay
      → run_tries (suc fuel) job_try s ≡ run_tries fuel (suc job_try) (attempt s).1
  unfolding run_tries
  retried fuel job_try s delay h = rw (run_tries, h) refl

  ended :
      (n m left : ℕ) (s : S) (x : JobEnd × S)
      → left ≡ suc m
      → ((x.0 ≡ complete) × (last_of n (attempt s).1 ≡ value tt))
        ⊎ ((x.0 ≡ dead_letter) × (n ≡ m) × (is_failure (last_of n (attempt s).1) ≡ true))
        ⊎ ((x.0 ≡ cancelled) × (n ≡ m) × (last_of n (attempt s).1 ≡ raises cancellation))
      → ((x.0 ≡ complete) × (last_of (suc n) s ≡ value tt))
        ⊎ ((x.0 ≡ dead_letter) × (suc n ≡ left) × (is_failure (last_of (suc n) s) ≡ true))
        ⊎ ((x.0 ≡ cancelled) × (suc n ≡ left) × (last_of (suc n) s ≡ raises cancellation))
  ended n m left s x z (inl h) = inl h
  ended n m left s x z (inr (inl h)) = inr (inl (h.0, omega (arith, h.1, z), h.2))
  ended n m left s x z (inr (inr h)) = inr (inr (h.0, omega (arith, h.1, z), h.2))

  more_runs :
      (left job_try m : ℕ) (s : S)
      → left ≡ suc m
      → run_tries (suc left) job_try s ≡ run_tries left (suc job_try) (attempt s).1
      → Run m (suc job_try) (attempt s).1
      → Run left job_try s
  more_runs left job_try m s z step (n, x, le, r, run_end) = (
    suc n,
    x,
    ground (arith, le, z),
    step ∙ (rw z r),
    (run_end.0, ended n m left s x z run_end.1),
  )

  failed :
      (left job_try : ℕ) (s : S)
      → ingest_document_job job_try (attempt s).0 ≡ after_failure job_try
      → is_failure (attempt s).0 ≡ true
      → job_try + left ≡ 3
      → ((m : ℕ) → left ≡ suc m → Run m (suc job_try) (attempt s).1)
      → Run left job_try s
  failed left job_try s h f e more = elim (failed_once left job_try s e) [
    | inr (last, z) ↦ (
      0,
      (dead_letter, (attempt s).1),
      ground (arith, z),
      stopped left job_try s dead_letter (inr refl) (h ∙ (unfold after_failure in rw last refl)),
      (refl, inr (inl (refl, sym z, f))),
    )
    | inl (again, m, z) ↦
        more_runs left job_try m s z
          (retried left job_try s (retry_delay_seconds * job_try)
            (h ∙ (unfold after_failure in rw again refl)))
          (more m z)
  ]

  stopped_worker :
      (left job_try : ℕ) (s : S)
      → ingest_document_job job_try (attempt s).0 ≡ cancelled
      → (attempt s).0 ≡ raises cancellation
      → job_try + left ≡ 3
      → ((m : ℕ) → left ≡ suc m → Run m (suc job_try) (attempt s).1)
      → Run left job_try s
  stopped_worker left job_try s h c e more = elim (failed_once left job_try s e) [
    | inr (last, z) ↦ (
      0,
      (cancelled, (attempt s).1),
      ground (arith, z),
      killed left job_try s last h,
      (refl, inr (inr (refl, sym z, c))),
    )
    | inl (again, m, z) ↦ more_runs left job_try m s z (run_again left job_try s again h) (more m z)
  ]

  attempted :
      (left job_try : ℕ) (s : S) (r : Tried (Unit {0}))
      → (attempt s).0 ≡ r
      → job_try + left ≡ 3
      → ((m : ℕ) → left ≡ suc m → Run m (suc job_try) (attempt s).1)
      → Run left job_try s
  unfolding ingest_document_job
  attempted left job_try s (value u) e k more = (
    0,
    (complete, (attempt s).1),
    ground arith,
    stopped left job_try s complete (inl refl) (rw e refl),
    (refl, inl (refl, e)),
  )
  attempted left job_try s (raises cancellation) e k more =
      stopped_worker left job_try s (rw e refl) e k more
  attempted left job_try s (raises (llm_error x)) e k more =
      failed left job_try s (rw e refl) (rw e refl) k more
  attempted left job_try s (raises (exception x)) e k more =
      failed left job_try s (rw e refl) (rw e refl) k more

  all_tries : (left job_try : ℕ) (s : S) → job_try + left ≡ 3 → Run left job_try s
  all_tries zero job_try s e =
      attempted zero job_try s (attempt s).0 refl e (λ m z. absurd (omega (arith, z)))
  all_tries (suc left) job_try s e = attempted (suc left) job_try s (attempt s).0 refl e (λ m z.
      subst (λ k. Run k (suc job_try) (attempt s).1) (omega (arith, z))
        (all_tries left (suc job_try) (attempt s).1 (omega (arith, e))))

  -- Whatever a try of the job does, three runs are enough, where one that fails or is killed is run
  -- again: after at most three the worker is done with the job, as the last run returned, or as it was
  -- the third and it failed or was killed.
  pub run_tries-Ended :
      (s : S) → (n : ℕ) × (x : JobEnd × S) × (n ≤ 2) × (run_tries 3 1 s ≡ some x) × Ended n 2 s x
  run_tries-Ended s = all_tries 2 1 s (omega arith)
