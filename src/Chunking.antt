-- ===== src/Chunking.antt =====
-- Splitting a document into chunks: apps/api/src/domains/documents/parsing.py. A text is the list of its
-- code points. `pdf_pages` stands for PyMuPDF: the texts of the pages of a PDF.
pub mod Words
pub mod Windows
pub mod Pages
pub mod Numbering
pub mod Lossless
mod Tests
use saas_genai_starter.Common.{
  ℕ, zero, suc, ◌+◌, ◌-◌, Bool, true, false, not, ◌&&◌, Option, none, some, List, [], ◌∷◌, ◌++◌,
  String, ltb, leb, str_eq, if◌then◌else◌, length, take, drop,
}
use mathlib.Core.List.{reverse}
use Words.{Text, split, join_words}

pub record Page : Type 0 where
  pub number : Option ℕ
  pub text : Text

pub record Chunk : Type 0 where
  pub page : Option ℕ
  pub position : ℕ
  pub content : Text

number_pages : ℕ → List Text → List Page
number_pages i [] = []
number_pages i (t ∷ ts) = record { number = some (i + 1); text = t } ∷ number_pages (i + 1) ts

-- `decode` stands for the UTF-8 decoder with replacement.
unfoldable pub extract_pages {ℓ} :
    {Data : Type ℓ} → (Data → List Text) → (Data → Text) → Data → String → List Page
unfolding number_pages
extract_pages pdf_pages decode file mime_type =
    if str_eq mime_type "application/pdf"
    then number_pages 0 (pdf_pages file)
    else record { number = none; text = decode file } ∷ []

abbrev pub target_words : ℕ
target_words = 380

abbrev pub overlap_words : ℕ
overlap_words = 48

abbrev pub min_chunk_words : ℕ
min_chunk_words = 20

-- `chunks`, the newest first, and `position`
pub record State : Type 0 where
  pub chunks : List Chunk
  pub position : ℕ

-- `chunks.append(...)` and `position += 1`
unfoldable pub emit : Option ℕ → List Text → State → State
emit number window s = record {
  chunks = record { page = number; position = s.position; content = join_words window } ∷ s.chunks;
  position = s.position + 1;
}

-- `chunks[-1] = ...`, where there is one
unfoldable pub merge_tail : List Text → List Chunk → List Chunk
merge_tail window [] = []
merge_tail window (c ∷ cs) = record c { content = c.content ++ b' ' ∷ join_words window } ∷ cs

unfoldable pub is_empty : List Chunk → Bool
is_empty [] = true
is_empty (c ∷ cs) = false

-- One round: is the window merged, and is it the tail? `next` is the rest of the loop.
pub window_round : Bool → Bool → Option ℕ → List Text → State → Option State → Option State
unfolding emit merge_tail
window_round true tail number window s next =
    some (record s { chunks = merge_tail window s.chunks })
window_round false true number window s next = some (emit number window s)
window_round false false number window s next = next

-- The `while` loop over the windows of a page; `none` if the fuel runs out.
pub window_loop : ℕ → Option ℕ → List Text → ℕ → State → Option State
unfolding emit is_empty window_round
window_loop zero number words start s = none
window_loop (suc fuel) number words start s =
    let window = take target_words (drop start words) in
    let is_tail = leb (length words) (start + target_words) in
    let merged = not (is_empty s.chunks) && (is_tail && ltb (length window) min_chunk_words) in
    let next =
      window_loop fuel number words (start + (target_words - overlap_words))
        (emit number window s) in
    if ltb start (length words) then window_round merged is_tail number window s next else some s

-- One page; the fuel is one more than its words.
pub chunk_page : Page → State → Option State
unfolding window_loop
chunk_page page s =
    let words = split page.text in window_loop (suc (length words)) page.number words 0 s

unfoldable pub chunk_from : List Page → State → Option State
chunk_from [] s = some s
chunk_from (p ∷ ps) s = elim (chunk_page p s) [ none ↦ none | some s' ↦ chunk_from ps s' ]

unfoldable pub chunk_pages : List Page → Option (List Chunk)
unfolding chunk_from
chunk_pages pages = elim (chunk_from pages (record { chunks = []; position = 0 })) [
  | none ↦ none
  | some s ↦ some (reverse s.chunks)
]
