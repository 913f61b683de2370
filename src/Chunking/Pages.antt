-- ===== src/Chunking/Pages.antt =====
-- What the `while` loop makes of one page, told without the loop.
use saas_genai_starter.Common.{
  ℕ, zero, suc, ◌+◌, ◌-◌, ◌≤◌, ◌<◌, ◌≡◌, refl, sym, ap, ◌∙◌, ◌⊎◌, Bool, true, false, not, ◌&&◌,
  Option, some, List, [], ◌∷◌, arith, ltb, leb, ◌==◌, if◌then◌else◌, length, take, drop, Bool-cases,
  inl, inr, length-drop, leb→le, lt→ltb, le→leb, lt→leb-false, leb-false→lt, dec_lt,
}
use saas_genai_starter.Chunking.Words.{Text, split}
use saas_genai_starter.Chunking.Windows.{windows, drop-drop}
use saas_genai_starter.Chunking.{
  Page, State, emit, merge_tail, is_empty, window_round, window_loop, chunk_page, chunk_from,
}

unfoldable pub emit_all : Option ℕ → List (List Text) → State → State
emit_all number [] s = s
emit_all number (w ∷ ws) s = emit_all number ws (emit number w s)

-- A page with no words adds nothing; one of fewer than 20 words goes to the chunk before it, if there
-- is one; any other adds one chunk for each of its windows.
unfoldable pub paged : Option ℕ → List Text → State → State
unfolding merge_tail is_empty
paged number words s =
    if length words == 0
    then s
    else if not (is_empty s.chunks) && ltb (length words) 20
    then record s { chunks = merge_tail words s.chunks }
    else emit_all number (windows (suc (length words)) words) s

take-all {ℓ} : {A : Type ℓ} (n : ℕ) (xs : List A) → length xs ≤ n → take n xs ≡ xs
take-all zero [] h = refl
take-all zero (x ∷ xs) h = absurd (omega arith)
take-all (suc n) [] h = refl
take-all (suc n) (x ∷ xs) h = ap (◌∷◌ x) (take-all n xs (omega arith))

no_merge : (e tail : Bool) (n : ℕ) → (e ≡ true) ⊎ (20 ≤ n) → (not e && (tail && ltb n 20)) ≡ false
no_merge e tail n h = ground arith

no_merge_open : (e : Bool) → (not e && false) ≡ false
no_merge_open e = ground arith

loop_tail :
    (fuel start : ℕ) (number : Option ℕ) (words : List Text) (s : State)
    → start < length words
    → length words ≤ start + 380
    → (is_empty s.chunks ≡ true) ⊎ (20 ≤ length words - start)
    → window_loop (suc fuel) number words start s ≡ some (emit number (drop start words) s)
unfolding window_loop window_round
loop_tail fuel start number words s lt tail h =
    let size = length-drop start words in
    let all = take-all 380 (drop start words) (omega arith) in
    let kept : (is_empty s.chunks ≡ true) ⊎ (20 ≤ length (drop start words)) = ground arith in
    rw
      (
        all,
        lt→ltb start (length words) lt,
        le→leb (length words) (start + 380) tail,
        no_merge (is_empty s.chunks) true (length (drop start words)) kept,
      )
      refl

loop_more :
    (fuel start : ℕ) (number : Option ℕ) (words : List Text) (s : State)
    → start + 380 < length words
    → window_loop (suc fuel) number words start s
      ≡ window_loop fuel number words (start + 332) (emit number (take 380 (drop start words)) s)
unfolding window_loop window_round
loop_more fuel start number words s more =
    let start_in : start < length words = omega arith in
    rw
      (
        lt→ltb start (length words) start_in,
        lt→leb-false (start + 380) (length words) more,
        no_merge_open (is_empty s.chunks),
      )
      refl

-- The loop emits the windows of what is left, where its first window is no tail to be merged.
loop-windows :
    (fuel start : ℕ) (number : Option ℕ) (words : List Text) (s : State)
    → start < length words
    → length words - start < fuel
    → (is_empty s.chunks ≡ true) ⊎ (20 ≤ length words - start)
    → window_loop fuel number words start s
      ≡ some (emit_all number (windows fuel (drop start words)) s)
unfolding windows emit_all
loop-windows zero start number words s lt f h = elim f [ ]
loop-windows (suc fuel) start number words s lt f h =
    let size = length-drop start words in
    elim (Bool-cases (leb (length (drop start words)) 380)) [
      | inl tail ↦
          let short = leb→le (length (drop start words)) 380 tail in
          rw tail (loop_tail fuel start number words s lt (omega arith) h)
      | inr more ↦
          let long = leb-false→lt (length (drop start words)) 380 more in
          rw (more, drop-drop 332 start words)
            (loop_more fuel start number words s (omega arith)
              ∙ loop-windows fuel (start + 332) number words
                  (emit number (take 380 (drop start words)) s) (omega arith) (omega arith)
                  (inr (omega arith)))
    ]

loop_merge :
    (fuel : ℕ) (number : Option ℕ) (words : List Text) (s : State)
    → 0 < length words
    → length words < 20
    → is_empty s.chunks ≡ false
    → window_loop (suc fuel) number words 0 s
      ≡ some (record s { chunks = merge_tail words s.chunks })
unfolding window_loop window_round
loop_merge fuel number words s pos tiny e =
    let all = take-all 380 words (omega arith) in
    rw (all, lt→ltb 0 (length words) pos, e, lt→ltb (length words) 20 tiny) (ground arith)

pub paged_tiny :
    (number : Option ℕ) (words : List Text) (s : State)
    → 0 < length words
    → length words < 20
    → is_empty s.chunks ≡ false
    → paged number words s ≡ record s { chunks = merge_tail words s.chunks }
unfolding paged
paged_tiny number words s pos tiny e = ground arith

paged_emit :
    (number : Option ℕ) (words : List Text) (s : State)
    → 0 < length words
    → (is_empty s.chunks ≡ true) ⊎ (20 ≤ length words)
    → paged number words s ≡ emit_all number (windows (suc (length words)) words) s
unfolding paged
paged_emit number words s pos h = ground arith

loop_paged :
    (number : Option ℕ) (words : List Text) (s : State)
    → 0 < length words
    → window_loop (suc (length words)) number words 0 s ≡ some (paged number words s)
loop_paged number words s pos = elim (Bool-cases (is_empty s.chunks)) [
  | inl e ↦
      loop-windows (suc (length words)) 0 number words s pos (omega arith) (inl e)
      ∙ ap some (sym (paged_emit number words s pos (inl e)))
  | inr e ↦ elim (dec_lt (length words) 20) [
    | yes tiny ↦
        loop_merge (length words) number words s pos tiny e
        ∙ ap some (sym (paged_tiny number words s pos tiny e))
    | no long ↦
        loop-windows (suc (length words)) 0 number words s pos (omega arith) (inr (omega arith))
        ∙ ap some (sym (paged_emit number words s pos (inr (omega arith))))
  ]
]

loop_paged_nil :
    (number : Option ℕ) (s : State) → window_loop 1 number [] 0 s ≡ some (paged number [] s)
unfolding window_loop paged
loop_paged_nil number s = refl

-- On every page the loop ends within its fuel, and does what `paged` says: nothing for a page with
-- no words; a merge into the chunk before for one of fewer than 20, if there is such a chunk; and
-- otherwise a chunk for each window of the page, so never a merge of a page's own tail.
pub chunk_page_lem :
    (page : Page) (s : State) → chunk_page page s ≡ some (paged page.number (split page.text) s)
unfolding chunk_page
chunk_page_lem page s = by_words (split page.text)
  where
    by_words :
        (words : List Text)
        → window_loop (suc (length words)) page.number words 0 s ≡ some (paged page.number words s)
    by_words [] = loop_paged_nil page.number s
    by_words (w ∷ ws) = loop_paged page.number (w ∷ ws) s (omega arith)

unfoldable pub all_paged : List Page → State → State
all_paged [] s = s
all_paged (p ∷ ps) s = all_paged ps (paged p.number (split p.text) s)

pub chunk_from_lem : (pages : List Page) (s : State) → chunk_from pages s ≡ some (all_paged pages s)
unfolding chunk_from all_paged
chunk_from_lem [] s = refl
chunk_from_lem (p ∷ ps) s =
    rw (chunk_page_lem p s, chunk_from) (chunk_from_lem ps (paged p.number (split p.text) s))
