-- ===== src/Base/Patterns.antt =====
-- Searching and cutting texts the way Python's `in`, `replace`, `split`, `splitlines` and `join` do.
use Prim.Native.Nat.{ℕ, zero, suc, ◌-◌}
use Prim.Native.Char.{Char, code}
use Prim.Native.String.{String, ◌++◌ as append, count}
use mathlib.Core.Path.{◌≡◌, refl}
use mathlib.Core.Bool.{Bool, true, false, ◌&&◌, ◌||◌}
use mathlib.Core.List.{List, [], ◌∷◌}
use text.Mathlib.Text.{starts_with}
use vendor_cat.Base.Tests.{nat_beq, if◌then◌else◌}
use vendor_cat.Base.Text.{is_empty, between}

-- `needle in s`
unfoldable pub has_text : String → String → Bool
unfolding is_empty
has_text needle String.[] = is_empty needle
has_text needle (String.◌∷◌ c s) = starts_with (String.◌∷◌ c s) needle || has_text needle s

-- The tests below on characters: those that end a line, and one given by its code.
unfoldable pub is_line_end : Char → Bool
is_line_end ch =
    let c = code ch in between 10 13 c || between 28 30 c || nat_beq c 133 || between 8232 8233 c

abbrev pub has_code : ℕ → Char → Bool
has_code n ch = nat_beq (code ch) n

abbrev pub is_digit : Char → Bool
is_digit ch = between 48 57 (code ch)

-- A character put before the first of some pieces.
abbrev pub onto_first : Char → List String → List String
onto_first c [] = (String.◌∷◌ c String.[]) ∷ []
onto_first c (piece ∷ pieces) = (String.◌∷◌ c piece) ∷ pieces

-- The pieces between the characters that pass a test, empty ones included.
unfoldable pub split_by : (Char → Bool) → String → List String
split_by cut String.[] = String.[] ∷ []
split_by cut (String.◌∷◌ c s) =
    let pieces = split_by cut s in if cut c then String.[] ∷ pieces else onto_first c pieces

-- The text before the first character that passes a test.
unfoldable pub before : (Char → Bool) → String → String
before cut String.[] = String.[]
before cut (String.◌∷◌ c s) =
    let rest = before cut s in if cut c then String.[] else String.◌∷◌ c rest

-- The characters that pass a test.
unfoldable pub keep_chars : (Char → Bool) → String → String
keep_chars p String.[] = String.[]
keep_chars p (String.◌∷◌ c s) = let rest = keep_chars p s in if p c then String.◌∷◌ c rest else rest

-- s.lstrip(chars)
unfoldable pub lstrip_chars : (Char → Bool) → String → String
lstrip_chars p String.[] = String.[]
lstrip_chars p (String.◌∷◌ c s) =
    let rest = lstrip_chars p s in if p c then rest else String.◌∷◌ c s

-- s.rstrip(chars)
unfoldable pub rstrip_chars : (Char → Bool) → String → String
unfolding is_empty
rstrip_chars p String.[] = String.[]
rstrip_chars p (String.◌∷◌ c s) =
    let rest = rstrip_chars p s in if is_empty rest && p c then String.[] else String.◌∷◌ c rest

-- " ".join(pieces), for any separator
unfoldable pub join : String → List String → String
join separator [] = String.[]
join separator (piece ∷ []) = piece
join separator (piece ∷ (other ∷ pieces)) =
    append piece (append separator (join separator (other ∷ pieces)))

-- s.replace(old, new) for an `old` that is not empty: `skip` characters of a match are still to be passed over.
unfoldable pub replace_from : ℕ → String → String → String → String
replace_from skip old new String.[] = String.[]
replace_from (suc skip) old new (String.◌∷◌ c s) = replace_from skip old new s
replace_from zero old new (String.◌∷◌ c s) = elim (starts_with (String.◌∷◌ c s) old) [
  | true ↦ append new (replace_from (count old - 1) old new s)
  | false ↦ String.◌∷◌ c (replace_from 0 old new s)
]

abbrev pub replace : String → String → String → String
replace old new s = replace_from 0 old new s

replace_test : replace "%s" "?" "a = %s and b = %%s" ≡ "a = ? and b = %?"
unfolding replace_from
replace_test = refl

split_by_test : split_by (has_code 44) "a,,b" ≡ "a" ∷ "" ∷ "b" ∷ []
unfolding split_by
split_by_test = refl

-- text[n:]
unfoldable pub drop_chars : ℕ → String → String
drop_chars zero s = s
drop_chars (suc n) String.[] = ""
drop_chars (suc n) (String.◌∷◌ c s) = drop_chars n s

-- text[:n]
unfoldable pub take_chars : ℕ → String → String
take_chars zero s = ""
take_chars (suc n) String.[] = ""
take_chars (suc n) (String.◌∷◌ c s) = String.◌∷◌ c (take_chars n s)
