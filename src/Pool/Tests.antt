-- ===== src/Pool/Tests.antt =====
-- Runs of the pool, and the theorems at concrete inputs.
use vendor_cat.Base.{[], ◌∷◌, ◌≡◌, ◌≢◌, refl, arith, keep}
use vendor_cat.Pool.{
  Conn, Pool, new, pop, collect_expired, acquire_open, candidate, should_create, timed_out, waits,
  acquire, release, close, connect_failed,
}
use vendor_cat.Pool.Threads.{System, start, Step, reserve, validate_failed, Reach, here, next}
use vendor_cat.Pool.Balance.{IsBalanced, IsSound, Reach-IsSound}
use vendor_cat.Pool.Leak.{validate_leak}

rounds : Unit {0}
unfolding acquire acquire_open collect_expired pop new release close connect_failed keep
rounds = tt

-- One slot and an idle time of five ticks.
abbrev fresh : Pool
fresh = new 1 5

abbrev idle : Pool
idle = record fresh { available = (3, 42) ∷ []; total_connections = 1 }

acquire_tests :
    (acquire 0 9 fresh ≡ (should_create, [], record fresh { total_connections = 1 }))
    × (acquire 7 9 idle ≡ (candidate 42, [], record fresh { total_connections = 1 }))
    × (acquire 8 9 idle ≡ (should_create, 42 ∷ [], record fresh { total_connections = 1 }))
    × ((acquire 2 9 (record fresh { total_connections = 1 })).0 ≡ waits)
    × ((acquire 9 9 (record fresh { total_connections = 1 })).0 ≡ timed_out)
unfolding rounds
acquire_tests = (refl, refl, refl, refl, refl)

-- A thread reserves the only slot, and its settings are not valid.
abbrev reserved : System
reserved = record (start 1 5) { pool = (acquire 0 9 fresh).2; connecting = 1 }

abbrev stuck : System
stuck = record reserved { connecting = 0; lost = 1 }

reserved_step : Step (start 1 5) reserved
unfolding rounds
reserved_step = reserve 0 9 refl

stuck_step : Step reserved stuck
unfolding rounds
stuck_step = validate_failed (omega arith)

stuck-Reach : Reach (start 1 5) stuck
stuck-Reach = next (next here reserved_step) stuck_step

Reach-IsSound_example : IsSound stuck
Reach-IsSound_example = Reach-IsSound 1 5 stuck-Reach

validate_leak_example :
    ((c : Conn) → (acquire 20 30 stuck.pool).0 ≢ candidate c)
    × ((acquire 20 30 stuck.pool).0 ≢ should_create)
unfolding rounds
validate_leak_example =
    validate_leak 20 30 {s = stuck} (Reach-IsSound 1 5 stuck-Reach) (omega arith) here

busy : IsBalanced 1 (record fresh { total_connections = 1 })
unfolding rounds
busy = record { total = refl; bounded = omega arith; shut_empty = λ h. refl }
