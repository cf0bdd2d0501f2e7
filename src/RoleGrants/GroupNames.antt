-- ===== src/RoleGrants/GroupNames.antt =====
-- domains/admin/policy.py: `normalize_group_principal`, the spelling of a group under which roles are
-- granted to it.
use text.Mathlib.Text.{starts_with}
use Prim.Native.Char.{Char, code}
use Prim.Native.String.{count, ◌++◌ as append}
use Prim.Native.String
use vendor_cat.Base.{String, Bool, true, false, ◌&&◌, ◌||◌, leb, string_eq, if◌then◌else◌}
use vendor_cat.Base.Text.{normalize, between}
use vendor_cat.Base.Patterns.{drop_chars, has_code, lstrip_chars, rstrip_chars}

-- [a-z0-9], and [a-z0-9._:@/-]
abbrev pub is_alnum : Char → Bool
is_alnum ch = between 97 122 (code ch) || between 48 57 (code ch)

abbrev pub is_group_char : Char → Bool
is_group_char ch =
    is_alnum ch
    || has_code 46 ch
    || has_code 95 ch
    || has_code 58 ch
    || has_code 64 ch
    || has_code 47 ch
    || has_code 45 ch

abbrev pub underscore : Char
underscore = Prim.Native.String.char_at "_" 0

-- The two substitutions that put "_" for a run of spaces and for any other character: a run of spaces
-- and one "_" come out the same once runs of "_" are joined.
unfoldable pub replace_chars : String → String
replace_chars String.[] = ""
replace_chars (String.◌∷◌ c s) =
    let rest = replace_chars s in String.◌∷◌ (if is_group_char c then c else underscore) rest

-- re.sub(r"_+", "_", text)
unfoldable pub join_underscores : String → String
join_underscores String.[] = ""
join_underscores (String.◌∷◌ c s) =
    let rest = join_underscores s in
    if has_code 95 c && starts_with rest "_" then rest else String.◌∷◌ c rest

-- "._:/-", the characters that `strip` takes off both ends
abbrev pub is_trimmed : Char → Bool
is_trimmed ch =
    has_code 46 ch || has_code 95 ch || has_code 58 ch || has_code 47 ch || has_code 45 ch

unfoldable pub all_chars : (Char → Bool) → String → Bool
all_chars p String.[] = true
all_chars p (String.◌∷◌ c s) = p c && all_chars p s

-- `GROUP_PRINCIPAL_PATTERN`
unfoldable pub is_group_name : String → Bool
unfolding all_chars
is_group_name String.[] = false
is_group_name (String.◌∷◌ c s) =
    is_alnum c && leb 1 (count s) && leb (count s) 190 && all_chars is_group_char s

-- `normalize_group_principal`
unfoldable pub normalize_group_principal : String → String
unfolding normalize drop_chars replace_chars join_underscores rstrip_chars lstrip_chars
    is_group_name
normalize_group_principal raw =
    let given = normalize raw in
    let bare = if starts_with given "group:" then drop_chars 6 given else given in
    let name =
      rstrip_chars is_trimmed (lstrip_chars is_trimmed (join_underscores (replace_chars bare))) in
    if is_group_name name then append "group:" name else ""
