-- ===== src/Lookup/Versions.antt =====
-- Versions of lookup options (domains/repository_lookup.py): rows that are closed and inserted, never
-- updated otherwise. A moment is the number of its ticks, as in the validity windows. The identifier
-- of a new row is taken from a supply of fresh ones, which stands for `uuid4`.
use Prim.Native.String.{compare as compare_texts}
use Prim.Native.Nat.{compare, Ordering}
use vendor_cat.Base.{
  ℕ, zero, suc, String, Bool, true, false, not, ◌&&◌, Option, none, some, List, [], ◌∷◌, ◌++◌, map,
  keep, nat_beq, ◌==◌, string_eq, if◌then◌else◌,
}
use vendor_cat.Base.Text.{strip, lower, or_text}
use vendor_cat.Lookup.Codes.{normalize_lookup_code, lookup_label_from_code}

pub record Version : Type 0 where
  pub option_id : String
  pub lookup_type : String
  pub option_code : String
  pub option_label : String
  pub sort_order : ℕ
  pub active_flag : Bool
  pub valid_from : ℕ
  pub valid_to : ℕ
  pub is_current : Bool
  pub deleted_flag : Bool

-- `int(row.get("sort_order") or 999)`
abbrev order_key : Version → ℕ
order_key v = elim v.sort_order [ zero ↦ 999 | suc n ↦ suc n ]

-- The order of the sort keys: by number, then by label, then by identifier.
unfoldable pub comes_before : Version → Version → Bool
unfolding lower
comes_before a b = elim (compare (order_key a) (order_key b)) [
  | Ordering.lt ↦ true
  | Ordering.gt ↦ false
  | Ordering.eq ↦ elim (compare_texts (lower a.option_label) (lower b.option_label)) [
    | Ordering.lt ↦ true
    | Ordering.gt ↦ false
    | Ordering.eq ↦ elim (compare_texts a.option_id b.option_id) [ Ordering.lt ↦ true | _ ↦ false ]
  ]
]

unfoldable pub insert_sorted : Version → List Version → List Version
unfolding comes_before
insert_sorted v [] = v ∷ []
insert_sorted v (w ∷ versions) =
    let rest = insert_sorted v versions in if comes_before w v then w ∷ rest else v ∷ w ∷ versions

-- list.sort by those keys
unfoldable pub sort : List Version → List Version
unfolding insert_sorted
sort [] = []
sort (v ∷ versions) = insert_sorted v (sort versions)

-- updates/close_lookup_option_version.sql
unfoldable pub close_version : ℕ → String → List Version → List Version
close_version now id table =
    map (λ v. if v.option_id == id then record v { valid_to = now; is_current = false } else v)
      table

unfoldable pub close_versions : ℕ → List String → List Version → List Version
unfolding close_version
close_versions now [] table = table
close_versions now (id ∷ ids) table = close_versions now ids (close_version now id table)

-- The current, undeleted rows of a type, as `list_lookup_options(type, active_only=False)` gives them
-- of a table that is not empty.
unfoldable pub current_options : String → List Version → List Version
unfolding keep
current_options type table =
    keep (λ v. v.lookup_type == type && v.is_current && not v.deleted_flag) table

-- A row of the new order: the option that is saved, or another one as it is now.
pub data Slot : Type 0 where
  target : Slot
  prior : Version → Slot

unfoldable pub insert_at : ℕ → Slot → List Slot → List Slot
insert_at zero s slots = s ∷ slots
insert_at (suc n) s [] = s ∷ []
insert_at (suc n) s (t ∷ slots) = t ∷ insert_at n s slots

-- What is done for a slot: the row stays, or it is closed, if there is one, and a new row inserted.
pub data Change : Type 0 where
  stays : Version → Change
  replaced : Option String → Version → Change

-- The row after the change.
abbrev pub after_change : Change → Version
after_change (stays v) = v
after_change (replaced closed v) = v

-- The new row of an option whose place changes; `none` where its code raises.
unfoldable pub moved : String → ℕ → Version → Option Version
unfolding normalize_lookup_code lookup_label_from_code strip
moved new_id index v = elim (normalize_lookup_code v.option_code) [
  | none ↦ none
  | some code ↦ some (record v {
    option_id = new_id;
    option_code = code;
    option_label = or_text (strip v.option_label) (lookup_label_from_code v.option_code);
    sort_order = index;
    active_flag = true;
    is_current = true;
    deleted_flag = false;
  })
]

-- The option to save, and the row that it replaces if there is one.
pub record Target : Type 0 where
  pub row : Version
  pub selected : Option Version

abbrev pub has_code : String → Version → Bool
has_code code v = elim (normalize_lookup_code v.option_code) [ none ↦ false | some c ↦ c == code ]

abbrev pub is_unchanged : Version → Version → Bool
is_unchanged v w =
    has_code w.option_code v
    && strip v.option_label == w.option_label
    && nat_beq v.sort_order w.sort_order
    && nat_beq v.valid_from w.valid_from
    && nat_beq v.valid_to w.valid_to

-- The change of the target at its place, by the row that it replaces.
unfoldable pub target_change : Option Version → Version → Option Change
target_change none w = some (replaced none w)
target_change (some v) w =
    if is_unchanged v w then some (stays v) else some (replaced (some v.option_id) w)

-- The change of one slot at its new place.
unfoldable pub change_of : (ℕ → String) → Target → ℕ → Slot → Option Change
unfolding moved target_change
change_of fresh t index (prior v) =
    if nat_beq v.sort_order index then some (stays v) else elim (moved (fresh index) index v) [
      | none ↦ none
      | some w ↦ some (replaced (some v.option_id) w)
    ]
change_of fresh t index target =
    target_change t.selected (record t.row { option_id = fresh index; sort_order = index })

-- The loop over the new order, its rows numbered from `index` on.
unfoldable pub changes : (ℕ → String) → Target → ℕ → List Slot → Option (List Change)
unfolding change_of
changes fresh t index [] = some []
changes fresh t index (s ∷ slots) =
    let rest = changes fresh t (suc index) slots in
    elim (change_of fresh t index s) [
      | none ↦ none
      | some c ↦ elim rest [ none ↦ none | some cs ↦ some (c ∷ cs) ]
    ]

unfoldable pub closed_ids : List Change → List String
closed_ids [] = []
closed_ids (stays v ∷ cs) = closed_ids cs
closed_ids (replaced none v ∷ cs) = closed_ids cs
closed_ids (replaced (some id) v ∷ cs) = id ∷ closed_ids cs

unfoldable pub inserted_rows : List Change → List Version
inserted_rows [] = []
inserted_rows (stays v ∷ cs) = inserted_rows cs
inserted_rows (replaced id v ∷ cs) = v ∷ inserted_rows cs

-- The statements: every row is closed before the first is inserted.
unfoldable pub apply_changes : ℕ → List Change → List Version → List Version
unfolding close_versions closed_ids inserted_rows
apply_changes now cs table = close_versions now (closed_ids cs) table ++ inserted_rows cs
