-- ===== src/Chunking/Words.antt =====
-- `str.split()` and `" ".join(...)` on lists of code points.
use saas_genai_starter.Common.{
  ℕ, Bool, true, false, ◌&&◌, ◌||◌, List, [], ◌∷◌, ◌++◌, ◌==◌, leb, if◌then◌else◌,
}

abbrev pub Text : Type 0
Text = List ℕ

-- the code points for which `str.isspace` holds
unfoldable pub is_space : ℕ → Bool
is_space c =
    (leb 9 c && leb c 13)
    || (leb 28 c && leb c 32)
    || (c == 0x85)
    || (c == 0xa0)
    || (c == 0x1680)
    || (leb 0x2000 c && leb c 0x200a)
    || (c == 0x2028)
    || (c == 0x2029)
    || (c == 0x202f)
    || (c == 0x205f)
    || (c == 0x3000)

-- A character goes in front of the first word, if there was no space between.
unfoldable pub push_char : ℕ → Bool → List Text → List Text
push_char c true (w ∷ ws) = (c ∷ w) ∷ ws
push_char c joined ws = (c ∷ []) ∷ ws

-- does the rest begin with a character of a word?
unfoldable pub begins_word : Text → Bool
unfolding is_space
begins_word [] = false
begins_word (c ∷ t) = if is_space c then false else true

unfoldable pub split : Text → List Text
unfolding is_space push_char begins_word
split [] = []
split (c ∷ t) = let rest = split t in if is_space c then rest else push_char c (begins_word t) rest

pub join_words : List Text → Text
join_words [] = []
join_words (w ∷ []) = w
join_words (w ∷ v ∷ ws) = w ++ b' ' ∷ join_words (v ∷ ws)
