-- ===== src/Base/Fold.antt =====
-- Python's `str.casefold`, `str.strip` and `in`, for texts whose letters are ASCII.
use Prim.Native.Char.{Char, code}
use Prim.Native.String.{char_at}
use text.Mathlib.Text.{find?}
use breakroom.Base.{
  ◌-◌, String, Bool, true, false, ◌&&◌, ◌||◌, none, some, leb, ◌==◌, if◌then◌else◌,
}

unfoldable pub fold_char : Char → Char
fold_char c =
    if leb 65 (code c) && leb (code c) 90
    then char_at "abcdefghijklmnopqrstuvwxyz" (code c - 65)
    else c

unfoldable pub casefold : String → String
unfolding fold_char
casefold String.[] = ""
casefold (String.◌∷◌ c s) = String.◌∷◌ (fold_char c) (casefold s)

abbrev is_space : Char → Bool
is_space c = leb 9 (code c) && leb (code c) 13 || leb 28 (code c) && leb (code c) 32

abbrev strip_left : String → String
strip_left String.[] = ""
strip_left (String.◌∷◌ c s) = let rest = strip_left s in if is_space c then rest else String.◌∷◌ c s

abbrev strip_right : String → String
strip_right String.[] = ""
strip_right (String.◌∷◌ c s) =
    let rest = strip_right s in if is_space c && rest == "" then "" else String.◌∷◌ c rest

unfoldable pub strip : String → String
strip s = strip_right (strip_left s)

unfoldable pub contains : String → String → Bool
contains text part = elim (find? text part) [ none ↦ false | some _ ↦ true ]
