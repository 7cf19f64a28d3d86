-- ===== src/Base/Text.antt =====
-- Text as the list of its character codes, with the std::string operations that the parsers use.
use Prim.Native.Nat.{ℕ, ◌+◌}
use Prim.Native.Char.{code}
use Prim.Native.String.{String}
use mathlib.Core.Bool.{Bool, true, false, ◌&&◌, ◌||◌}
use mathlib.Core.List.{List, [], ◌∷◌, map}
use novium_emulator.Base.Tests.{leb, ◌==◌, if◌then◌else◌}

abbrev pub Text : Type 0
Text = List ℕ

abbrev pub codes : String → Text
codes String.[] = []
codes (String.◌∷◌ c s) = code c ∷ codes s

-- std::tolower in the C locale.
unfoldable pub lower : ℕ → ℕ
lower c = if leb b'A' c && leb c b'Z' then c + 32 else c

unfoldable pub lowered : Text → Text
unfolding lower
lowered = map lower

-- s.rfind(word, 0) == 0
unfoldable pub starts_with : Text → Text → Bool
starts_with [] s = true
starts_with (c ∷ cs) [] = false
starts_with (c ∷ cs) (d ∷ ds) = c == d && starts_with cs ds

-- s.find(word) != npos
unfoldable pub contains : Text → Text → Bool
unfolding starts_with
contains word [] = starts_with word []
contains word (c ∷ cs) = starts_with word (c ∷ cs) || contains word cs

unfoldable pub same : Text → Text → Bool
same [] [] = true
same [] (d ∷ ds) = false
same (c ∷ cs) [] = false
same (c ∷ cs) (d ∷ ds) = c == d && same cs ds

-- s.substr(0, s.find(word)) where `word` occurs, and `s` itself elsewhere.
unfoldable pub cut_at : Text → Text → Text
unfolding starts_with
cut_at word [] = []
cut_at word (c ∷ cs) = if starts_with word (c ∷ cs) then [] else c ∷ cut_at word cs

-- " \t\r\n"
unfoldable pub is_space : ℕ → Bool
is_space c = c == b' ' || c == 9 || c == 13 || c == 10

abbrev pub is_empty {ℓ} : {A : Type ℓ} → List A → Bool
is_empty [] = true
is_empty (c ∷ cs) = false

unfoldable pub trim_front : Text → Text
unfolding is_space
trim_front [] = []
trim_front (c ∷ cs) = if is_space c then trim_front cs else c ∷ cs

unfoldable pub trim_end : Text → Text
unfolding is_space
trim_end [] = []
trim_end (c ∷ cs) = let rest = trim_end cs in if is_space c && is_empty rest then [] else c ∷ rest

unfoldable pub trim : Text → Text
unfolding trim_front trim_end
trim s = trim_end (trim_front s)

unfoldable pub add_char : ℕ → List Text → List Text
add_char c [] = (c ∷ []) ∷ []
add_char c (l ∷ ls) = (c ∷ l) ∷ ls

-- The lines that std::getline gives, one after the other.
unfoldable pub lines : Text → List Text
unfolding add_char
lines [] = []
lines (c ∷ cs) = if c == 10 then [] ∷ lines cs else add_char c (lines cs)
