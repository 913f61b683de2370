-- ===== src/Chunking/Windows.antt =====
-- The overlapping windows of a list of words: every word is in one, and no window is too long.
use saas_genai_starter.Common.{
  ℕ, zero, suc, ◌+◌, ◌≤◌, ◌<◌, ◌≡◌, refl, sym, ap, ◌∙◌, List, [], ◌∷◌, ◌++◌, arith, leb,
  if◌then◌else◌, length, take, drop, All, append-nil, take-append-drop, length-drop, length-take,
  Bool-cases, inl, inr, leb→le, leb-false→lt,
}

module _ {ℓ} {A : Type ℓ} where
  -- The windows of 380 items that begin 332 apart, up to the first that reaches the end.
  unfoldable pub windows : ℕ → List A → List (List A)
  windows zero rest = []
  windows (suc fuel) rest =
      let more = windows fuel (drop 332 rest) in
      if leb (length rest) 380 then rest ∷ [] else take 380 rest ∷ more

  -- the parts of later windows that the one before does not hold
  pub news : List (List A) → List A
  news [] = []
  news (w ∷ ws) = drop 48 w ++ news ws

  pub reassemble : List (List A) → List A
  unfolding news
  reassemble [] = []
  reassemble (w ∷ ws) = w ++ news ws

  drop-append : (n : ℕ) (xs ys : List A) → n ≤ length xs → drop n (xs ++ ys) ≡ drop n xs ++ ys
  drop-append zero xs ys h = refl
  drop-append (suc n) [] ys h = elim h [ ]
  drop-append (suc n) (x ∷ xs) ys h = drop-append n xs ys (omega arith)

  drop-nil : (n : ℕ) → drop {A = A} n [] ≡ []
  drop-nil zero = refl
  drop-nil (suc n) = refl

  pub drop-drop : (m n : ℕ) (xs : List A) → drop m (drop n xs) ≡ drop (n + m) xs
  drop-drop m zero xs = let e : m ≡ zero + m = omega arith in ap (λ k. drop k xs) e
  drop-drop m (suc n) [] = drop-nil m ∙ sym (drop-nil (suc n + m))
  drop-drop m (suc n) (x ∷ xs) =
      let e : suc (n + m) ≡ suc n + m = omega arith in
      drop-drop m n xs ∙ ap (λ k. drop k (x ∷ xs)) e

  news-reassemble :
      (fuel : ℕ) (rest : List A)
      → 48 ≤ length rest
      → length rest < fuel
      → news (windows fuel rest) ≡ drop 48 (reassemble (windows fuel rest))
  unfolding windows news reassemble
  news-reassemble zero rest h lt = elim lt [ ]
  news-reassemble (suc fuel) rest h lt = elim (Bool-cases (leb (length rest) 380)) [
    | inl short ↦ rw (short, sym (drop-append 48 rest [] h)) refl
    | inr long ↦
        rw
          (
            long,
            drop-append 48 (take 380 rest) (news (windows fuel (drop 332 rest)))
                (omega (arith, length-take 380 rest, leb-false→lt (length rest) 380 long)),
          )
          refl
  ]

  -- The windows, less their overlaps, put together are the words: none is lost, and none is moved.
  pub reassemble-windows :
      (fuel : ℕ) (rest : List A) → length rest < fuel → reassemble (windows fuel rest) ≡ rest
  unfolding windows reassemble
  reassemble-windows zero rest lt = elim lt [ ]
  reassemble-windows (suc fuel) rest lt = elim (Bool-cases (leb (length rest) 380)) [
    | inl short ↦ rw short (unfold news in append-nil rest)
    | inr long ↦
        let big = leb-false→lt (length rest) 380 long in
        let size = length-drop 332 rest in
        let step =
          news-reassemble fuel (drop 332 rest) (omega arith) (omega arith)
          ∙ ap (drop 48) (reassemble-windows fuel (drop 332 rest) (omega arith))
          ∙ drop-drop 48 332 rest in
        rw (long, step) (take-append-drop 380 rest)
  ]

  -- No window has more than 380 words.
  pub windows-le : (fuel : ℕ) (rest : List A) → All (λ w. length w ≤ 380) (windows fuel rest)
  unfolding windows
  windows-le zero rest = tt
  windows-le (suc fuel) rest = elim (Bool-cases (leb (length rest) 380)) [
    | inl short ↦ rw short (leb→le (length rest) 380 short, tt)
    | inr long ↦ rw long (omega (arith, length-take 380 rest), windows-le fuel (drop 332 rest))
  ]
