-- ===== src/Chunking/Tests.antt =====
-- The theorems on chunking, at concrete pages.
use saas_genai_starter.Common.{ℕ, zero, suc, ◌≤◌, ◌≡◌, some, List, [], ◌∷◌, arith, length, All}
use saas_genai_starter.Chunking.Words.{Text, split}
use saas_genai_starter.Chunking.Windows.{reassemble}
use saas_genai_starter.Chunking.Pages.{emit_all}
use saas_genai_starter.Chunking.Lossless.{chunk_page_lossless}
use saas_genai_starter.Chunking.{Page, Chunk, State, chunk_page}

-- "a " repeated
abbrev letters : ℕ → Text
letters zero = []
letters (suc n) = 97 ∷ 32 ∷ letters n

abbrev page : ℕ → ℕ → Page
page i n = record { number = some i; text = letters n }

abbrev empty : State
empty = record { chunks = []; position = 0 }

chunk_page_lossless_example :
    (ws : List (List Text)) × (chunk_page (page 1 24) empty ≡ some (emit_all (some 1) ws empty))
    × (reassemble ws ≡ split (letters 24))
    × All (λ w. length w ≤ 380) ws
unfolding split
chunk_page_lossless_example = chunk_page_lossless (page 1 24) empty (omega arith)

abbrev chunk : Chunk
chunk = record { page = some 1; position = 0; content = letters 20 }
