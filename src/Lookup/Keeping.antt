-- ===== src/Lookup/Keeping.antt =====
-- Saving and deleting an option as a whole: what each branch leaves of the table.
use vendor_cat.Base.{ℕ, String, Option, none, some, List, [], ◌∷◌, ◌++◌, map, ◌≡◌, ◌⊎◌, keep}
use vendor_cat.Lookup.Versions.{
  Version, Slot, prior, Target, Change, close_version, current_options, apply_changes, sort,
}
use vendor_cat.Lookup.Saving.{Calendar, OptionForm, LookupError, removed_row, overlaps, other_rows}
use vendor_cat.Lookup.Refusals.{Refusal, DeletionRefusal, RenumberRefusal}
use vendor_cat.Lookup.Follows.{Follows, Arranged}
use vendor_cat.Lookup.Orders.{Extends, Targets}

-- What a save comes to: an error for its reason and the table as it was, or the changes of a new
-- order of the current rows that overlap the window of the form, with the form's row among them at
-- the place it asks for.
abbrev pub Saved :
    Calendar
    → (ℕ → String)
    → String
    → OptionForm
    → ℕ
    → List Version
    → Option LookupError × List Version
    → Type 0
Saved cal fresh type form now table result =
    ((e : LookupError) × Refusal cal type form table e × (result ≡ (some e, table)))
    ⊎ ((t : Target) × (slots : List Slot) × (cs : List Change) × Targets cal type form table t
        × Arranged cal t.row (other_rows t.selected (current_options type table)) slots
        × Follows fresh t 1 slots cs
        × (result ≡ (none, apply_changes now cs table)))

-- The rows whose places a deletion counts anew.
abbrev pub left_slots : Calendar → Version → List Version → List Slot
left_slots cal removed rows =
    map prior (sort (keep (overlaps cal removed.valid_from removed.valid_to) rows))

-- The target that a deletion passes on, of which there is no slot
abbrev pub no_target : Version → Target
no_target removed = record { row = removed; selected = none }

-- What a deletion makes of a table with the mark of the removed row: it is kept as after a save, and
-- either an error is raised, or each current row that overlaps the removed window gets its new
-- place.
abbrev pub Renumbered :
    Calendar
    → (ℕ → String)
    → String
    → Version
    → ℕ
    → List Version
    → Option LookupError × List Version
    → Type 0
Renumbered cal fresh type removed now table result =
    Extends table result.1
    × (((e : LookupError) × (result.0 ≡ some e) × RenumberRefusal (current_options type table) e)
        ⊎ ((cs : List Change) × Follows fresh (no_target removed) 1
              (left_slots cal removed (current_options type table)) cs
            × (result ≡ (none, apply_changes now cs table))))

-- A deletion as a whole, by the row that it removes.
abbrev pub Deleted :
    Calendar
    → (ℕ → String)
    → String
    → String
    → ℕ
    → List Version
    → Option Version
    → Option LookupError × List Version
    → Type 0
Deleted cal fresh type option_id now table found result =
    Extends table result.1
    × (((e : LookupError) × (result.0 ≡ some e)
          × DeletionRefusal option_id found (current_options type table) e)
        ⊎ ((removed : Version) × (code : String) × (cs : List Change) × (let marked =
                close_version now removed.option_id table
                ++ removed_row cal type (fresh 0) code now removed ∷ [] in
              (found ≡ some removed)
              × Follows fresh (no_target removed) 1
                  (left_slots cal removed (current_options type marked)) cs
              × (result ≡ (none, apply_changes now cs marked)))))
