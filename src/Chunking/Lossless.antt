-- ===== src/Chunking/Lossless.antt =====
-- The chunks of one page hold all of its words.
use saas_genai_starter.Common.{suc, ◌≤◌, ◌≡◌, ◌∙◌, ap, some, List, arith, length, All}
use saas_genai_starter.Chunking.Words.{Text, split}
use saas_genai_starter.Chunking.Windows.{windows, reassemble, reassemble-windows, windows-le}
use saas_genai_starter.Chunking.Pages.{emit_all, paged, chunk_page_lem}
use saas_genai_starter.Chunking.{Page, State, chunk_page}

paged_long :
    (page : Page) (s : State)
    → 20 ≤ length (split page.text)
    → paged page.number (split page.text) s
      ≡ emit_all page.number (windows (suc (length (split page.text))) (split page.text)) s
unfolding paged
paged_long page s h = ground arith

-- A page of at least 20 words becomes one chunk for each of some windows of at most 380 words, and the
-- windows, less the 48 words that each later one repeats, put together are the words of the page:
-- none is lost, and none is moved.
pub chunk_page_lossless :
    (page : Page) (s : State)
    → 20 ≤ length (split page.text)
    → (ws : List (List Text)) × (chunk_page page s ≡ some (emit_all page.number ws s))
      × (reassemble ws ≡ split page.text)
      × All (λ w. length w ≤ 380) ws
chunk_page_lossless page s h =
    let words = split page.text in
    (
      windows (suc (length words)) words,
      chunk_page_lem page s ∙ ap some (paged_long page s h),
      reassemble-windows (suc (length words)) words (omega arith),
      windows-le (suc (length words)) words,
    )
