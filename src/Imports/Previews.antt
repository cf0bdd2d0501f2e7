-- ===== src/Imports/Previews.antt =====
-- web/routers/imports/store.py: the previews of imports that wait for the user, under tokens. Times are
-- ticks of the monotonic clock, `ticks` of them in a second; the lock makes each call one step.
use vendor_cat.Base.{
  ℕ, zero, suc, ◌+◌, ◌*◌, String, Bool, true, false, not, Option, none, some, [], ◌∷◌, keep, length,
  leb, ltb, string_eq, if◌then◌else◌,
}
use vendor_cat.Base.Text.{strip, is_empty}
use vendor_cat.Base.Dict.{Dict, lookup, insert, remove}

abbrev pub import_preview_ttl_sec : ℕ
import_preview_ttl_sec = 1800

abbrev pub import_preview_max_items : ℕ
import_preview_max_items = 64

abbrev pub Store : Type 0 → Type 0
Store P = Dict String (ℕ × P)

module _ {P : Type 0} where
  -- min(store, key=...): of the entries with the least time the first, `token` and `created` being the
  -- least so far.
  unfoldable pub oldest_from : String → ℕ → Store P → String
  oldest_from token created [] = token
  oldest_from token created ((other, (time, payload)) ∷ store) = elim (ltb time created) [
    | true ↦ oldest_from other time store
    | false ↦ oldest_from token created store
  ]

  abbrev pub oldest_token : Store P → Option String
  oldest_token [] = none
  oldest_token ((token, (created, payload)) ∷ store) = some (oldest_from token created store)

  -- The loop of `_prune_preview_store`, on fuel
  unfoldable pub drop_oldest : ℕ → Store P → Store P
  drop_oldest zero store = store
  drop_oldest (suc fuel) store = elim (ltb import_preview_max_items (length store)) [
    | false ↦ store
    | true ↦ elim (oldest_token store) [
      | none ↦ store
      | some token ↦ drop_oldest fuel (remove token store)
    ]
  ]

  abbrev pub is_live : ℕ → ℕ → String × (ℕ × P) → Bool
  is_live ticks now entry = not (leb (entry.1.0 + import_preview_ttl_sec * ticks) now)

  -- `_prune_preview_store`
  unfoldable pub prune_preview_store : ℕ → ℕ → Store P → Store P
  prune_preview_store ticks now store =
      let live = keep (is_live ticks now) store in drop_oldest (length live) live

  -- `save_preview_payload`, with the token that was drawn
  unfoldable pub save_preview_payload : ℕ → ℕ → String → P → Store P → Store P
  save_preview_payload ticks now token payload store =
      insert token (now, payload) (prune_preview_store ticks now store)

  -- `load_preview_payload`
  unfoldable pub load_preview_payload : ℕ → ℕ → String → Store P → Option P × Store P
  load_preview_payload ticks now token store =
      let key = strip token in
      let pruned = prune_preview_store ticks now store in
      if is_empty key
      then (none, store)
      else elim (lookup key pruned) [ none ↦ (none, pruned) | some entry ↦ (some entry.1, pruned) ]

  -- `discard_preview_payload`
  unfoldable pub discard_preview_payload : String → Store P → Store P
  discard_preview_payload token store =
      let key = strip token in if is_empty key then store else remove key store
