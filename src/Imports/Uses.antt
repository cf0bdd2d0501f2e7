-- ===== src/Imports/Uses.antt =====
-- The store of previews in use: what is saved, loaded and discarded after a preview.
use vendor_cat.Base.{
  ℕ, suc, ◌+◌, ◌*◌, ◌≤◌, ◌<◌, String, false, some, List, [], ◌∷◌, ◌≡◌, contains, All, subst, arith,
  string_eq, ◌==◌,
}
use vendor_cat.Base.Text.{strip, is_empty}
use vendor_cat.Base.Dict.{keys}
use vendor_cat.Imports.Previews.{
  Store, import_preview_max_items, import_preview_ttl_sec, save_preview_payload,
  load_preview_payload, discard_preview_payload,
}
use vendor_cat.Imports.Ages.{Before}
use vendor_cat.Imports.Lasting.{
  Waits, save-Waits, save_other-Waits, discard_other-Waits, load-Waits, load_found,
}

-- A use of the store; a load may be of any token.
pub data Use (P : Type 0) : Type 0 where
  saving : ℕ → String → P → Use P
  loading : ℕ → String → Use P
  discarding : String → Use P

module _ {P : Type 0} (ticks : ℕ) where
  abbrev pub use_once : Use P → Store P → Store P
  use_once (saving at token payload) store = save_preview_payload ticks at token payload store
  use_once (loading at token) store = (load_preview_payload ticks at token store).1
  use_once (discarding token) store = discard_preview_payload token store

  abbrev pub use_all : List (Use P) → Store P → Store P
  use_all [] store = store
  use_all (u ∷ uses) store = use_all uses (use_once u store)

  -- How many of the uses save a preview
  abbrev pub saves : List (Use P) → ℕ
  saves [] = 0
  saves (saving at token payload ∷ uses) = suc (saves uses)
  saves (loading at token ∷ uses) = saves uses
  saves (discarding token ∷ uses) = saves uses

  -- Uses between the time `now` at which the preview of a token was saved and its end: each save draws a
  -- token that the store does not hold, and the preview itself is not discarded.
  abbrev pub Fits : String → ℕ → Use P → Store P → Type 0
  Fits token now (saving at other payload) store =
      (now ≤ at)
      × (at < now + import_preview_ttl_sec * ticks)
      × (contains (keys store) other ≡ false)
  Fits token now (loading at other) store = at < now + import_preview_ttl_sec * ticks
  Fits token now (discarding other) store = (token == strip other) ≡ false

  abbrev pub AllFit : String → ℕ → List (Use P) → Store P → Type 0
  AllFit token now [] store = Unit
  AllFit token now (u ∷ uses) store =
      Fits token now u store × AllFit token now uses (use_once u store)

  uses-Waits :
      (now n : ℕ) (token : String) (payload : P) (uses : List (Use P)) (store : Store P)
      → n + saves uses < import_preview_max_items
      → AllFit token now uses store
      → Waits token now payload n store
      → Waits token now payload (n + saves uses) (use_all uses store)
  uses-Waits now n token payload [] store few fit h =
      let same : n ≡ n + 0 = omega arith in subst (λ m. Waits token now payload m store) same h
  uses-Waits now n token payload (saving at other given ∷ uses) store few ((late, soon, fresh), fit)
        h =
      let same : suc n + saves uses ≡ n + suc (saves uses) = omega arith in
      let kept =
        save_other-Waits ticks at now n token other payload given store (omega (arith, few)) soon
          late fresh h in
      subst
        (λ m.
          Waits token now payload m
            (use_all uses (save_preview_payload ticks at other given store)))
        same (uses-Waits now (suc n) token payload uses _ (omega (arith, few)) fit kept)
  uses-Waits now n token payload (loading at other ∷ uses) store few (soon, fit) h =
      uses-Waits now n token payload uses _ few fit
        (load-Waits ticks at now n token other payload store (omega (arith, few)) soon h)
  uses-Waits now n token payload (discarding other ∷ uses) store few (differs, fit) h =
      uses-Waits now n token payload uses _ few fit
        (discard_other-Waits now n token other payload store differs h)

  -- A preview that was saved under a new token, when all that waited had been saved before, is loaded at
  -- any time before it expires, whatever was saved, loaded and discarded since, provided that at most 63
  -- previews were saved since, under new tokens, and that it was not itself discarded.
  pub load-save :
      (now later : ℕ) (token : String) (payload : P) (uses : List (Use P)) (store : Store P)
      → strip token ≡ token
      → is_empty token ≡ false
      → All (Before now) store
      → contains (keys store) token ≡ false
      → saves uses < import_preview_max_items
      → AllFit token now uses (save_preview_payload ticks now token payload store)
      → later < now + import_preview_ttl_sec * ticks
      → (load_preview_payload ticks later token
          (use_all uses (save_preview_payload ticks now token payload store))).0
        ≡ some payload
  load-save now later token payload uses store stripped named before fresh few fit soon =
      load_found ticks later now (0 + saves uses) token payload _ stripped named
        (omega (arith, few)) soon
        (uses-Waits now 0 token payload uses _ (omega (arith, few)) fit
          (save-Waits ticks now token payload store before fresh))
