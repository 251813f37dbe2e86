-- ===== src/Common/Text.antt =====
-- Python text: truth of a string, equality tests, and ASCII upper case.
use Prim.Native.Char.{Char, code}
use Prim.Native.String.{String}
use mathlib.Core.Bool.{Bool}
use text.Mathlib.Text.{◌==◌ as str_eq}
use indian_algo_trading_plat.Common.Tests.{if◌then◌else◌, ◌==◌}

-- `not s`
abbrev pub is_empty : String → Bool
is_empty s = str_eq s ""

-- The image of `c` when the two texts list its lower case letters and their upper case in step.
abbrev pub upper_in : String → String → Char → Char
upper_in String.[] us c = c
upper_in (String.◌∷◌ l ls) String.[] c = c
upper_in (String.◌∷◌ l ls) (String.◌∷◌ u us) c =
    let rest = upper_in ls us c in if code l == code c then u else rest

-- `s.upper()` on ASCII text, which trading symbols are.
unfoldable pub upper : String → String
upper String.[] = String.[]
upper (String.◌∷◌ c s) =
    String.◌∷◌ (upper_in "abcdefghijklmnopqrstuvwxyz" "ABCDEFGHIJKLMNOPQRSTUVWXYZ" c) (upper s)

abbrev is_space : Char → Bool
is_space c = code c == 32

-- `s.lstrip()` and `s.strip()` on text whose only white space is the blank.
unfoldable pub lstrip : String → String
lstrip String.[] = String.[]
lstrip (String.◌∷◌ c s) = let rest = lstrip s in if is_space c then rest else String.◌∷◌ c s

unfoldable pub rstrip : String → String
rstrip String.[] = String.[]
rstrip (String.◌∷◌ c s) =
    let rest = rstrip s in
    if is_empty rest
    then (if is_space c then String.[] else String.◌∷◌ c String.[])
    else String.◌∷◌ c rest

unfoldable pub strip : String → String
unfolding lstrip rstrip
strip s = rstrip (lstrip s)

-- `s.lower()` on ASCII text, and `s.replace("_", "")`.
unfoldable pub lower : String → String
lower String.[] = String.[]
lower (String.◌∷◌ c s) =
    String.◌∷◌ (upper_in "ABCDEFGHIJKLMNOPQRSTUVWXYZ" "abcdefghijklmnopqrstuvwxyz" c) (lower s)

unfoldable pub without_underscores : String → String
without_underscores String.[] = String.[]
without_underscores (String.◌∷◌ c s) =
    let rest = without_underscores s in if code c == b'_' then rest else String.◌∷◌ c rest
