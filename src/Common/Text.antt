-- ===== src/Common/Text.antt =====
-- The part of Go's `strings` that the engine uses, over the code points of a text.
use Prim.Native.Nat.{ℕ}
use Prim.Native.Char.{Char, code}
use Prim.Native.String
use Prim.Native.String.{String, [], ◌∷◌}
use mathlib.Core.Bool.{Bool, ◌&&◌, ◌||◌}
use mathlib.Core.List.{List}
use flowanything.Common.Tests.{leb, eqb, if◌then◌else◌}

-- a + b
abbrev pub concat : String → String → String
concat a b = String.◌++◌ a b

-- unicode.IsSpace
unfoldable pub is_space : ℕ → Bool
is_space c =
    (leb 9 c && leb c 13)
    || eqb c 32
    || eqb c 0x85
    || eqb c 0xa0
    || eqb c 0x1680
    || (leb 0x2000 c && leb c 0x200a)
    || eqb c 0x2028
    || eqb c 0x2029
    || eqb c 0x202f
    || eqb c 0x205f
    || eqb c 0x3000

trim_left : String → String
unfolding is_space
trim_left [] = []
trim_left (c ∷ s) = let rest = trim_left s in if is_space (code c) then rest else c ∷ s

-- A space is dropped when nothing but dropped spaces stands behind it.
cons_trimmed : Char → String → String
unfolding is_space
cons_trimmed c [] = if is_space (code c) then [] else c ∷ []
cons_trimmed c (d ∷ s) = c ∷ d ∷ s

trim_right : String → String
unfolding cons_trimmed
trim_right [] = []
trim_right (c ∷ s) = cons_trimmed c (trim_right s)

-- strings.TrimSpace
unfoldable pub trim_space : String → String
unfolding trim_left trim_right
trim_space s = trim_right (trim_left s)

-- strings.TrimPrefix(s, prefix)
strip : String → String → String → String
strip whole [] s = s
strip whole (p ∷ ps) [] = whole
strip whole (p ∷ ps) (c ∷ s) =
    let rest = strip whole ps s in if eqb (code p) (code c) then rest else whole

unfoldable pub trim_prefix : String → String → String
unfolding strip
trim_prefix s prefix = strip s prefix s

-- The first part grows by one character.
cons_head : Char → List String → List String
cons_head c List.[] = List.◌∷◌ (c ∷ []) List.[]
cons_head c (List.◌∷◌ p ps) = List.◌∷◌ (c ∷ p) ps

-- strings.Split(s, sep) for a separator of one character: always at least one part.
unfoldable pub split_on : ℕ → String → List String
unfolding cons_head
split_on sep [] = List.◌∷◌ [] List.[]
split_on sep (c ∷ s) =
    let parts = split_on sep s in if eqb (code c) sep then List.◌∷◌ [] parts else cons_head c parts

-- strings.HasPrefix(s, prefix)
unfoldable pub starts : String → String → Bool
starts s [] = Bool.true
starts [] (p ∷ ps) = Bool.false
starts (c ∷ s) (p ∷ ps) = let rest = starts s ps in eqb (code c) (code p) && rest

-- strings.Contains(s, part)
unfoldable pub contains_text : String → String → Bool
unfolding starts
contains_text [] part = starts [] part
contains_text (c ∷ s) part = let later = contains_text s part in starts (c ∷ s) part || later
