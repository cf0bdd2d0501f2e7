-- ===== src/Base/Text.antt =====
-- Python's text methods that the program calls, over native strings. Case mapping is that of the
-- ASCII letters; `is_space` is the whole of `str.isspace`.
use Prim.Native.Nat.{ℕ, ◌-◌}
use Prim.Native.Char.{Char, code}
use Prim.Native.String.{String, [], ◌∷◌, char_at}
use mathlib.Core.Bool.{Bool, true, false, ◌&&◌, ◌||◌}
use mathlib.Core.Path.{◌≡◌, refl}
use vendor_cat.Base.Tests.{leb, nat_beq, if◌then◌else◌}
use vendor_cat.Base.Equality.{string_eq}

abbrev pub between : ℕ → ℕ → ℕ → Bool
between lo hi c = leb lo c && leb c hi

unfoldable pub is_space : Char → Bool
is_space ch =
    let c = code ch in
    between 9 13 c
    || between 28 32 c
    || nat_beq c 133
    || nat_beq c 160
    || nat_beq c 5760
    || between 8192 8202 c
    || between 8232 8233 c
    || nat_beq c 8239
    || nat_beq c 8287
    || nat_beq c 12288

unfoldable pub is_empty : String → Bool
is_empty [] = true
is_empty (c ∷ s) = false

unfoldable pub lstrip : String → String
unfolding is_space
lstrip [] = []
lstrip (c ∷ s) = let rest = lstrip s in if is_space c then rest else c ∷ s

unfoldable pub rstrip : String → String
unfolding is_space is_empty
rstrip [] = []
rstrip (c ∷ s) = let rest = rstrip s in if is_empty rest && is_space c then [] else c ∷ rest

-- s.strip()
unfoldable pub strip : String → String
unfolding lstrip rstrip
strip s = rstrip (lstrip s)

unfoldable pub lower_char : Char → Char
lower_char ch =
    let c = code ch in if between 65 90 c then char_at "abcdefghijklmnopqrstuvwxyz" (c - 65) else ch

unfoldable pub upper_char : Char → Char
upper_char ch =
    let c = code ch in
    if between 97 122 c then char_at "ABCDEFGHIJKLMNOPQRSTUVWXYZ" (c - 97) else ch

-- s.lower()
unfoldable pub lower : String → String
unfolding lower_char
lower [] = []
lower (c ∷ s) = lower_char c ∷ lower s

-- s.upper()
unfoldable pub upper : String → String
unfolding upper_char
upper [] = []
upper (c ∷ s) = upper_char c ∷ upper s

-- s.strip().lower()
unfoldable pub normalize : String → String
unfolding strip lower
normalize s = lower (strip s)

-- `a or b` on texts
unfoldable pub or_text : String → String → String
unfolding is_empty
or_text a b = if is_empty a then b else a

normalize_test : normalize "  Create_Offering \n" ≡ "create_offering"
unfolding normalize
normalize_test = refl
