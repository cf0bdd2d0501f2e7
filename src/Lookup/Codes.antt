-- ===== src/Lookup/Codes.antt =====
-- Codes and labels of lookup options: `_normalize_lookup_code` and `_lookup_label_from_code`.
use Prim.Native.Char.{code}
use Prim.Native.String
use vendor_cat.Base.{
  ℕ, String, Bool, true, false, ◌&&◌, ◌||◌, Option, none, some, leb, nat_beq, if◌then◌else◌,
}
use vendor_cat.Base.Text.{strip, normalize, is_empty, is_space, lower_char, upper_char}

-- [a-z0-9_-]
abbrev is_code_char : ℕ → Bool
is_code_char n = (leb 97 n && leb n 122) || (leb 48 n && leb n 57) || nat_beq n 95 || nat_beq n 45

-- The three substitutions together: every other character gives an underscore, and a run of
-- underscores gives one; `after` tells that the last character was one.
code_chars : Bool → String → String
code_chars after String.[] = String.[]
code_chars after (String.◌∷◌ c s) =
    let plain = code_chars false s in
    let under = code_chars true s in
    if is_code_char (code c)
    then if nat_beq (code c) 95
      then if after then under else String.◌∷◌ c under
      else String.◌∷◌ c plain
    else if after
    then under
    else String.◌∷◌ (Prim.Native.String.char_at "_" 0) under

-- A text without the underscore at its start and at its end, where no two stand together.
drop_last : String → String
drop_last String.[] = String.[]
drop_last (String.◌∷◌ c s) =
    let rest = drop_last s in
    if is_empty s && nat_beq (code c) 95 then String.[] else String.◌∷◌ c rest

-- `none` where the code is empty and the method raises
unfoldable pub normalize_lookup_code : String → Option String
unfolding normalize code_chars drop_last
normalize_lookup_code value =
    let cleaned = drop_last (code_chars true (normalize value)) in
    if is_empty cleaned then none else some cleaned

-- str.title of the words of a code; a run of blanks and underscores between two words gives one
-- blank, and one at the start or the end gives none.
title_words : Bool → Bool → String → String
unfolding is_space lower_char upper_char
title_words pending inside String.[] = String.[]
title_words pending inside (String.◌∷◌ c s) =
    let is_letter = (leb 65 (code c) && leb (code c) 90) || (leb 97 (code c) && leb (code c) 122) in
    let cased = if is_letter then if inside then lower_char c else upper_char c else c in
    let blank = title_words true false s in
    let more = title_words false is_letter s in
    if is_space c || nat_beq (code c) 95
    then blank
    else if pending
    then String.◌∷◌ (Prim.Native.String.char_at " " 0) (String.◌∷◌ cased more)
    else String.◌∷◌ cased more

unfoldable pub lookup_label_from_code : String → String
unfolding title_words strip
lookup_label_from_code code = strip (title_words false false code)
