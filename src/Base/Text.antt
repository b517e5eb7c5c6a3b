-- ===== src/Base/Text.antt =====
-- JavaScript text: `trim` and the emptiness test that the code makes with it.
use Prim.Native.Nat.{ℕ}
use Prim.Native.Char.{code}
use Prim.Native.String.{String}
use mathlib.Core.Bool.{Bool, true, false, ◌&&◌, ◌||◌}
use mathlib.Core.List.{List, [], ◌∷◌}
use text.Mathlib.Text.{◌==◌}
use fuse_agent_control_plane.Base.Tests.{leb, eqb, if◌then◌else◌}

-- The white space and line terminators of ECMAScript.
pub is_space : ℕ → Bool
is_space c =
    leb 9 c && leb c 13
    || eqb c 32
    || eqb c 0xa0
    || eqb c 0x1680
    || leb 0x2000 c && leb c 0x200a
    || eqb c 0x2028
    || eqb c 0x2029
    || eqb c 0x202f
    || eqb c 0x205f
    || eqb c 0x3000
    || eqb c 0xfeff

-- `!s.trim()`.
unfoldable pub is_blank : String → Bool
unfolding is_space
is_blank String.[] = true
is_blank (String.◌∷◌ c s) = is_space (code c) && is_blank s

trim_end : String → String
unfolding is_blank
trim_end String.[] = ""
trim_end (String.◌∷◌ c s) =
    let rest = trim_end s in if is_blank (String.◌∷◌ c s) then "" else String.◌∷◌ c rest

-- `s.trim()`.
unfoldable pub trim : String → String
unfolding trim_end is_space
trim String.[] = ""
trim (String.◌∷◌ c s) =
    let rest = trim s in if is_space (code c) then rest else trim_end (String.◌∷◌ c s)

-- `xs.includes(x)` on texts, and `new Set(xs).size !== xs.length`.
abbrev pub includes : String → List String → Bool
includes s [] = false
includes s (x ∷ xs) = x == s || includes s xs

abbrev pub has_duplicate : List String → Bool
has_duplicate [] = false
has_duplicate (x ∷ xs) = includes x xs || has_duplicate xs
