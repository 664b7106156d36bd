-- ===== src/Text.antt =====
-- JavaScript's operations on strings that the program uses: `split` on one character,
-- `toLowerCase` and `length`.
pub mod Words
use Prim.Native.Char.{Char, code}
use Prim.Native.String.{String, [], ◌∷◌}
use mathlib.Core.List.{List}
use identity_platform.Prelude.{ℕ, ◌+◌, ltb, ◌==◌, if◌then◌else◌}

-- The first part of a split grows by one character.
cons_head : Char → List String → List String
cons_head c List.[] = List.◌∷◌ (c ∷ []) List.[]
cons_head c (List.◌∷◌ s parts) = List.◌∷◌ (c ∷ s) parts

-- `s.split(sep)` for a separator of one character.
unfoldable pub split : Char → String → List String
unfolding cons_head
split sep [] = List.◌∷◌ [] List.[]
split sep (c ∷ s) =
    let rest = split sep s in if code c == code sep then List.◌∷◌ [] rest else cons_head c rest

-- The letter at the same place of the second alphabet.
swap_case : String → String → Char → Char
swap_case (u ∷ us) (l ∷ ls) c = if code u == code c then l else swap_case us ls c
swap_case _ _ c = c

-- `toLowerCase` on ASCII text; other characters stay.
unfoldable pub to_lower : String → String
unfolding swap_case
to_lower [] = []
to_lower (c ∷ s) =
    swap_case "ABCDEFGHIJKLMNOPQRSTUVWXYZ" "abcdefghijklmnopqrstuvwxyz" c ∷ to_lower s

-- `s.length`: a character beyond the basic plane is two units of UTF-16.
unfoldable pub utf16_length : String → ℕ
utf16_length [] = 0
utf16_length (c ∷ s) = (if ltb (code c) 65536 then 1 else 2) + utf16_length s
