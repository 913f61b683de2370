-- ===== src/Chunking/Numbering.antt =====
-- The chunks of a document: their positions, and what becomes of pages with few words.
use saas_genai_starter.Common.{
  ℕ, zero, suc, ◌<◌, ◌≡◌, refl, ap, ◌∙◌, Option, some, List, [], ◌∷◌, ◌++◌, map, arith, length, All,
  append-nil, append_assoc, map-append,
}
use mathlib.Core.List.{reverse, reverse-cons}
use saas_genai_starter.Chunking.Words.{Text, split, join_words}
use saas_genai_starter.Chunking.Windows.{windows}
use saas_genai_starter.Chunking.Pages.{emit_all, paged, paged_tiny, all_paged, chunk_from_lem}
use saas_genai_starter.Chunking.{
  Page, Chunk, State, emit, merge_tail, is_empty, chunk_from, chunk_pages,
}

-- The newest first: the positions fall from `n - 1` to 0.
abbrev Numbered : ℕ → List Chunk → Type 0
Numbered n [] = n ≡ 0
Numbered n (c ∷ cs) = (n ≡ suc c.position) × Numbered c.position cs

emit_all-Numbered :
    (number : Option ℕ) (ws : List (List Text)) (s : State)
    → Numbered s.position s.chunks
    → Numbered (emit_all number ws s).position (emit_all number ws s).chunks
unfolding emit_all emit
emit_all-Numbered number [] s h = h
emit_all-Numbered number (w ∷ ws) s h =
    emit_all-Numbered number ws (emit number w s) (omega arith, h)

merge_tail-Numbered :
    (n : ℕ) (ws : List Text) (cs : List Chunk) → Numbered n cs → Numbered n (merge_tail ws cs)
unfolding merge_tail
merge_tail-Numbered n ws [] h = h
merge_tail-Numbered n ws (c ∷ cs) h = h

paged-Numbered :
    (number : Option ℕ) (words : List Text) (s : State)
    → Numbered s.position s.chunks
    → Numbered (paged number words s).position (paged number words s).chunks
unfolding paged
paged-Numbered number words s h = ground (
  arith,
  merge_tail-Numbered s.position words s.chunks h,
  emit_all-Numbered number (windows (suc (length words)) words) s h,
)

all_paged-Numbered :
    (ps : List Page) (s : State)
    → Numbered s.position s.chunks
    → Numbered (all_paged ps s).position (all_paged ps s).chunks
unfolding all_paged
all_paged-Numbered [] s h = h
all_paged-Numbered (p ∷ ps) s h =
    all_paged-Numbered ps (paged p.number (split p.text) s)
      (paged-Numbered p.number (split p.text) s h)

-- `list(range(n))`, and the positions of chunks
abbrev pub range : ℕ → List ℕ
range zero = []
range (suc n) = range n ++ n ∷ []

abbrev pub positions : List Chunk → List ℕ
positions = map (λ c. c.position)

Numbered-range : (n : ℕ) (cs : List Chunk) → Numbered n cs → positions (reverse cs) ≡ range n
Numbered-range n [] h = rw h refl
Numbered-range n (c ∷ cs) h =
    rw
      (
        h.0,
        reverse-cons c cs,
        map-append (λ (x : Chunk). x.position) (reverse cs) (c ∷ []),
        Numbered-range c.position cs h.1,
      )
      refl

-- Every document is chunked, within the fuel of its loops, and its chunks are numbered from 0 on, in
-- order and without a gap.
pub chunk_pages-positions :
    (pages : List Page)
    → (cs : List Chunk) × (n : ℕ) × (chunk_pages pages ≡ some cs) × (positions cs ≡ range n)
unfolding chunk_pages
chunk_pages-positions pages =
    let start : State = record { chunks = []; position = 0 } in
    let s = all_paged pages start in
    (
      reverse s.chunks,
      s.position,
      rw (chunk_from_lem pages start, chunk_pages) refl,
      Numbered-range s.position s.chunks (all_paged-Numbered pages start refl),
    )

-- A page with words, but fewer than 20.
abbrev pub IsTiny : Page → Type 0
IsTiny p = (0 < length (split p.text)) × (length (split p.text) < 20)

-- The words of the pages, each after a space.
abbrev pub appended : List Page → Text
appended [] = []
appended (p ∷ ps) = b' ' ∷ join_words (split p.text) ++ appended ps

merges :
    (ps : List Page) (c : Chunk) (cs : List Chunk) (n : ℕ)
    → All IsTiny ps
    → all_paged ps (record { chunks = c ∷ cs; position = n })
      ≡ record { chunks = record c { content = c.content ++ appended ps } ∷ cs; position = n }
unfolding all_paged is_empty merge_tail
merges [] c cs n h = rw (append-nil c.content) refl
merges (p ∷ ps) c cs n h =
    rw
      (paged_tiny p.number (split p.text) (record { chunks = c ∷ cs; position = n }) h.0.0 h.0.1
        refl)
      (merges ps (record c { content = c.content ++ b' ' ∷ join_words (split p.text) }) cs n h.1
        ∙ rw (append_assoc c.content (b' ' ∷ join_words (split p.text)) (appended ps)) refl)

-- However many pages with fewer than 20 words follow a chunk, and whatever their page numbers, they
-- add no chunk: all their words go to that chunk, which keeps its own page number.
pub tiny_pages_merge :
    (ps : List Page) (c : Chunk) (cs : List Chunk) (n : ℕ)
    → All IsTiny ps
    → chunk_from ps (record { chunks = c ∷ cs; position = n })
      ≡ some
          (record { chunks = record c { content = c.content ++ appended ps } ∷ cs; position = n })
tiny_pages_merge ps c cs n h = chunk_from_lem ps _ ∙ ap some (merges ps c cs n h)
