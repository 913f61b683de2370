-- ===== src/Storage/Paths.antt =====
-- `LocalDiskStorage._resolve`. A resolved path is the list of its names, the innermost first. There are
-- no symbolic links, so `Path.resolve` only takes the `..` away.
use saas_genai_starter.Common.{
  ℕ, Bool, true, false, not, ◌&&◌, ◌||◌, Option, none, some, List, [], ◌∷◌, ◌==◌, if◌then◌else◌,
}
use saas_genai_starter.Chunking.Words.{Text, is_space}

abbrev pub slash : ℕ
slash = b'/'

abbrev pub dot : ℕ
dot = b'.'

abbrev pub ResolvedPath : Type 0
ResolvedPath = List Text

abbrev pub same_text : Text → Text → Bool
same_text [] [] = true
same_text (a ∷ s) (b ∷ t) = let rest = same_text s t in (a == b) && rest
same_text s t = false

abbrev pub same_path : ResolvedPath → ResolvedPath → Bool
same_path [] [] = true
same_path (a ∷ p) (b ∷ q) = let rest = same_path p q in same_text a b && rest
same_path p q = false

-- not `path.strip()`
unfoldable pub is_blank : Text → Bool
unfolding is_space
is_blank [] = true
is_blank (c ∷ s) = let rest = is_blank s in is_space c && rest

-- A character goes to the first name.
unfoldable pub push : ℕ → List Text → List Text
push c [] = (c ∷ []) ∷ []
push c (n ∷ ns) = (c ∷ n) ∷ ns

-- `path.split("/")`
unfoldable pub names : Text → List Text
unfolding push
names [] = [] ∷ []
names (c ∷ s) = let rest = names s in if c == slash then [] ∷ rest else push c rest

unfoldable pub is_absolute : Text → Bool
is_absolute [] = false
is_absolute (c ∷ s) = c == slash

abbrev pub parent : ResolvedPath → ResolvedPath
parent [] = []
parent (n ∷ p) = p

-- One name of a path: an empty one and `.` are nothing, `..` is the parent.
unfoldable pub enter : Text → ResolvedPath → ResolvedPath
enter name p =
    if same_text name [] || same_text name (dot ∷ [])
    then p
    else if same_text name (dot ∷ dot ∷ [])
    then parent p
    else name ∷ p

unfoldable pub walk : List Text → ResolvedPath → ResolvedPath
unfolding enter
walk [] p = p
walk (n ∷ ns) p = walk ns (enter n p)

-- `(root / path).resolve()`: an absolute path replaces the root.
unfoldable pub joined : ResolvedPath → Text → ResolvedPath
unfolding walk names is_absolute
joined root path = walk (names path) (if is_absolute path then [] else root)

unfoldable pub is_relative_to : ResolvedPath → ResolvedPath → Bool
is_relative_to [] root = same_path [] root
is_relative_to (n ∷ p) root = let rest = is_relative_to p root in same_path (n ∷ p) root || rest

-- `none` where the ValueError is raised
unfoldable pub resolve : ResolvedPath → Text → Option ResolvedPath
unfolding is_blank joined is_relative_to
resolve root path =
    if is_blank path
    then none
    else if same_path (joined root path) root || not (is_relative_to (joined root path) root)
    then none
    else some (joined root path)
