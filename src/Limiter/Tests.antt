-- ===== src/Limiter/Tests.antt =====
-- Runs of the limiter, and the theorems at concrete inputs.
use vendor_cat.Base.{
  ℕ, ◌≤◌, String, true, false, List, [], ◌∷◌, ◌≡◌, ◌*◌, refl, arith, length, string_eq,
}
use vendor_cat.Base.Dict.{lookup}
use vendor_cat.Limiter.{Limiter, new, allow, drop_old, limiter_key, store}
use vendor_cat.Limiter.Capacity.{IsCovered, allow-IsCovered, new-IsCovered}
use vendor_cat.Limiter.History.{Tracks, AllFit, run, spec_run, run-eq-spec}

-- Two requests in ten seconds, with a clock of one tick in a second.
abbrev limiter : Limiter
limiter = new true 2 10 3 1

abbrev requests : List (String × ℕ)
requests = ("ip:a", 1) ∷ ("ip:a", 2) ∷ ("ip:b", 3) ∷ ("ip:a", 9) ∷ ("ip:a", 11) ∷ []

run_test : run limiter requests ≡ true ∷ true ∷ true ∷ false ∷ true ∷ []
unfolding run new allow limiter_key store lookup drop_old
run_test = refl

start-Tracks : Tracks limiter (λ k. []) 0
unfolding new lookup
start-Tracks = record { sorted = λ k. tt; past = λ k. tt; agree = λ k u h. refl }

requests-AllFit : AllFit limiter 0 requests
unfolding new allow limiter_key store lookup drop_old
requests-AllFit = omega arith

run-eq-spec_example :
    run limiter requests
    ≡ spec_run limiter.max_requests (limiter.window_seconds * limiter.ticks) (λ k. []) requests
run-eq-spec_example =
    run-eq-spec limiter (λ k. []) 0 requests (unfold new in refl) start-Tracks requests-AllFit

allow-IsCovered_example :
    IsCovered (allow "ip:a" 4 limiter).2
    × (length (allow "ip:a" 4 limiter).2.events ≤ limiter.max_keys)
    × ((allow "ip:a" 4 limiter).2.max_keys ≡ limiter.max_keys)
allow-IsCovered_example =
    allow-IsCovered "ip:a" 4 limiter (unfold new in refl) (new-IsCovered true 2 10 3 1)
