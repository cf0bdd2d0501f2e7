-- ===== src/Cache/Tests.antt =====
-- Runs of the cache, and the theorems at concrete inputs.
use vendor_cat.Base.{ℕ, String, true, none, some, [], ◌∷◌, ◌≡◌, refl, arith, contains, string_eq}
use vendor_cat.Base.Dict.{keys, unique_keys, lookup, insert}
use vendor_cat.Cache.{Cache, new, get, set}
use vendor_cat.Cache.Reads.{IsValid, live, map_clone, get-eq-live}
use vendor_cat.Cache.Writes.{set-IsValid, get-set_self}

-- Two entries of ten seconds each.
abbrev empty : Cache String ℕ
empty = new true 10 2 1 none

abbrev filled : Cache String ℕ
filled = set (get (set (set empty "a" 1 none 0) "b" 2 none 1) "a" 2).1 "c" 3 (some 5) 3

-- "b" was used least recently, so it made room for "c".
filled_keys : keys filled.entries ≡ "a" ∷ "c" ∷ []
unfolding new set get lookup insert
filled_keys = refl

filled_reads :
    ((get filled "a" 9).0 ≡ some 1) × ((get filled "a" 10).0 ≡ none) × ((get filled "c" 8).0 ≡ none)
unfolding new set get lookup insert
filled_reads = (refl, refl, refl)

empty-IsValid : IsValid empty
unfolding new unique_keys
empty-IsValid = record { bounded = omega arith; unique = refl }

filled-IsValid : IsValid filled
unfolding new set get unique_keys lookup insert contains
filled-IsValid = record { bounded = omega arith; unique = refl }

get-eq-live_example : (get filled "a" 9).0 ≡ map_clone filled (live filled "a" 9)
get-eq-live_example =
    get-eq-live filled "a" 9 filled-IsValid (unfold new set get lookup insert in refl)
      (unfold new set get lookup insert in omega arith)

set-IsValid_example : IsValid (set filled "d" 4 none 5)
set-IsValid_example = set-IsValid filled "d" 4 none 5 filled-IsValid

get-set_self_example : (get (set filled "d" 4 none 5) "d" 14).0 ≡ some 4
unfolding set get new
get-set_self_example =
    get-set_self filled "d" 4 none 5 14 filled-IsValid (unfold new set get lookup insert in refl)
      (unfold new set get lookup insert in omega arith)
      (unfold new set get lookup insert in omega arith)
      (unfold new set get lookup insert in omega arith)
