-- ===== src/Workflow/Payload.antt =====
-- Payloads of change requests as JSON values, and what web/routers/pending_approvals/common.py and
-- common/core/audit.py read of them and write. Numbers are whole: no code under study stores another.
use Prim.Native.Char.{code}
use vendor_cat.Base.{
  ℕ, zero, suc, ◌+◌, ◌-◌, ◌*◌, String, Bool, true, false, ◌&&◌, Option, none, some, List, [], ◌∷◌,
  ◌++◌, contains, min, max, leb, nat_beq, ◌==◌, string_eq, if◌then◌else◌,
}
use vendor_cat.Base.Text.{strip, normalize, upper, is_empty}
use vendor_cat.Roles.Levels.{required_approval_level, max_approval_level, min_change_approval_level}

pub data ℤ : Type 0 where
  pos : ℕ → ℤ
  negsuc : ℕ → ℤ

mutual
  pub data Json : Type 0 where
    null : Json
    flag : Bool → Json
    number : ℤ → Json
    text : String → Json
    list : Items → Json
    object : Fields → Json

  pub data Items : Type 0 where
    nil : Items
    cons : Json → Items → Items

  pub data Fields : Type 0 where
    end : Fields
    field : String → Json → Fields → Fields

-- payload.get(key)
unfoldable pub get_field : String → Fields → Option Json
get_field key end = none
get_field key (field k v fields) = if k == key then some v else get_field key fields

-- payload[key] = value
unfoldable pub set_field : String → Json → Fields → Fields
set_field key value end = field key value end
set_field key value (field k v fields) =
    let rest = set_field key value fields in
    if k == key then field key value fields else field k v rest

-- payload.setdefault(key, value)
unfoldable pub setdefault : String → Json → Fields → Fields
unfolding get_field set_field
setdefault key value fields = elim (get_field key fields) [
  | none ↦ set_field key value fields
  | some _ ↦ fields
]

-- `x if isinstance(x, dict) else {}`, for the value of a key or for a text that was parsed
abbrev pub object_or_empty : Option Json → Fields
object_or_empty (some (object fields)) = fields
object_or_empty _ = end

-- The digits of `int(text)`, one underscore allowed between two of them.
unfoldable pub digits : ℕ → Bool → String → Option ℕ
digits value ended String.[] = if ended then some value else none
digits value ended (String.◌∷◌ c s) =
    let n = code c in
    let more = digits (value * 10 + (n - 48)) true s in
    let rest = digits value false s in
    if leb 48 n && leb n 57 then more else if nat_beq n 95 && ended then rest else none

abbrev negate : ℕ → ℤ
negate zero = pos 0
negate (suc n) = negsuc n

unfoldable pub int_of_text : String → Option ℤ
unfolding digits
int_of_text String.[] = none
int_of_text (String.◌∷◌ c s) =
    if nat_beq (code c) 45
    then elim (digits 0 false s) [ none ↦ none | some n ↦ some (negate n) ]
    else if nat_beq (code c) 43
    then elim (digits 0 false s) [ none ↦ none | some n ↦ some (pos n) ]
    else elim (digits 0 false (String.◌∷◌ c s)) [ none ↦ none | some n ↦ some (pos n) ]

-- int(value), `none` where it raises
unfoldable pub int_of : Json → Option ℤ
unfolding int_of_text strip
int_of null = none
int_of (flag b) = some (pos (if b then 1 else 0))
int_of (number n) = some n
int_of (text s) = int_of_text (strip s)
int_of (list items) = none
int_of (object fields) = none

-- max(MIN_CHANGE_APPROVAL_LEVEL, min(level, MAX_APPROVAL_LEVEL))
unfoldable pub clamp_level : ℤ → ℕ
clamp_level (pos n) = max min_change_approval_level (min n max_approval_level)
clamp_level (negsuc n) = min_change_approval_level

-- The level of the key `approval_level_required`, or the default of the change type.
unfoldable pub level_in : Fields → String → ℕ
unfolding clamp_level get_field int_of required_approval_level
level_in meta change_type = clamp_level (elim (get_field "approval_level_required" meta) [
  | none ↦ pos (required_approval_level change_type)
  | some value ↦ elim (int_of value) [
    | none ↦ pos (required_approval_level change_type)
    | some level ↦ level
  ]
])

-- `_prepare_change_request_payload`
unfoldable pub prepare_change_request_payload : String → Fields → Fields
unfolding level_in set_field get_field
prepare_change_request_payload change_type payload =
    let meta = object_or_empty (get_field "_meta" payload) in
    let level = number (pos (level_in meta change_type)) in
    set_field "_meta"
      (object (
        set_field "workflow_action" (text (normalize change_type))
          (set_field "approval_level_required" level meta)))
      payload

-- `_required_level` of a row, over its parsed payload
unfoldable pub required_level : Fields → String → ℕ
unfolding level_in get_field
required_level payload change_type =
    level_in (object_or_empty (get_field "_meta" payload)) change_type

module _ (repr : Json → String) where
  -- str(value): a text is itself, and `repr` gives the text of any other value.
  abbrev pub str_of : Json → String
  str_of (text s) = s
  str_of value = repr value

  unfoldable pub item_values : Items → List String
  unfolding strip
  item_values nil = []
  item_values (cons x items) =
      let value = strip (str_of x) in
      let rest = item_values items in if is_empty value then rest else value ∷ rest

  abbrev nonempty_value : String → List String
  nonempty_value value = if is_empty value then [] else value ∷ []

  -- The values of one key in the first loop of `_payload_org_values`.
  unfoldable pub key_values : Option Json → List String
  unfolding item_values
  key_values none = []
  key_values (some null) = []
  key_values (some (list items)) = item_values items
  key_values (some value) = nonempty_value (strip (str_of value))

  -- str(value or "")
  unfoldable pub str_or_empty : Option Json → String
  str_or_empty none = ""
  str_or_empty (some null) = ""
  str_or_empty (some (flag false)) = ""
  str_or_empty (some (number (pos zero))) = ""
  str_or_empty (some (list nil)) = ""
  str_or_empty (some (object end)) = ""
  str_or_empty (some value) = str_of value

  -- The values of the key `updates`, a missing or other value giving none.
  unfoldable pub update_values : Fields → List String
  unfolding str_or_empty get_field strip
  update_values updates =
      nonempty_value (strip (str_or_empty (get_field "org_id" updates)))
      ++ nonempty_value (strip (str_or_empty (get_field "owner_org_id" updates)))

  -- The last loop of `_payload_org_values`: the first of the values that differ only in case.
  unfoldable pub dedupe : List String → List String → List String
  unfolding contains
  dedupe seen [] = []
  dedupe seen (value ∷ values) =
      let rest = dedupe seen values in
      let more = dedupe (upper value ∷ seen) values in
      if contains seen (upper value) then rest else value ∷ more

  unfoldable pub payload_org_values : Fields → List String
  unfolding key_values update_values dedupe get_field
  payload_org_values payload = dedupe [] (
      key_values (get_field "org_id" payload)
      ++ key_values (get_field "owner_org_id" payload)
      ++ update_values (object_or_empty (get_field "updates" payload)))
