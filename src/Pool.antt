-- ===== src/Pool.antt =====
-- infrastructure/db.py: the pool of Databricks connections of `DatabricksSQLClient`. A connection is a
-- number; times are ticks of the monotonic clock. What a thread does under `_pool_condition` is one
-- function here, and the threads are the steps of Pool/Threads.
pub mod Threads
pub mod Balance
pub mod Leak
pub mod Tests
use vendor_cat.Base.{
  ℕ, zero, suc, ◌+◌, ◌-◌, Bool, true, false, not, ◌||◌, Option, none, some, List, [], ◌∷◌, ◌++◌,
  map, keep, length, leb, ltb, nat_beq, if◌then◌else◌,
}

abbrev pub Conn : Type 0
Conn = ℕ

pub record Pool : Type 0 where
  pub max_size : ℕ
  pub idle_ttl : ℕ
  pub available : List (ℕ × Conn)
  pub total_connections : ℕ
  pub closed : Bool

unfoldable pub new : ℕ → ℕ → Pool
new max_size idle_ttl = record {
  max_size = max_size;
  idle_ttl = idle_ttl;
  available = [];
  total_connections = 0;
  closed = false;
}

-- (now - released_at) >= idle_ttl
abbrev pub is_stale : ℕ → ℕ → ℕ × Conn → Bool
is_stale ttl now x = leb (x.0 + ttl) now

-- `_collect_expired_pool_connections_locked`: the stale connections, and the pool without them.
unfoldable pub collect_expired : ℕ → Pool → List Conn × Pool
unfolding keep
collect_expired now p =
    let stale = keep (is_stale p.idle_ttl now) p.available in
    let active = keep (λ x. not (is_stale p.idle_ttl now x)) p.available in
    if nat_beq p.idle_ttl 0 then ([], p) else (
      map (λ x. x.1) stale,
      record p { available = active; total_connections = p.total_connections - length stale },
    )

-- `list.pop()`: the last element, and the rest.
unfoldable pub pop : List (ℕ × Conn) → Option (Conn × List (ℕ × Conn))
pop [] = none
pop (x ∷ xs) = elim (pop xs) [ none ↦ some (x.1, []) | some (c, rest) ↦ some (c, x ∷ rest) ]

-- How a round of `_acquire_pooled_connection` ends.
pub data Acquired : Type 0 where
  pool_closed : Acquired
  candidate : Conn → Acquired
  should_create : Acquired
  timed_out : Acquired
  waits : Acquired

-- The round below the check of `_pool_closed`, over the pool without its stale connections.
unfoldable pub acquire_open : ℕ → ℕ → Pool → Acquired × Pool
unfolding pop
acquire_open now deadline p = elim (pop p.available) [
  | some (c, rest) ↦ (candidate c, record p { available = rest })
  | none ↦
      if ltb p.total_connections p.max_size
      then (should_create, record p { total_connections = p.total_connections + 1 })
      else if leb deadline now
      then (timed_out, p)
      else (waits, p)
]

-- One round under the lock: how it ends, the stale connections that the thread closes next, unless it
-- has raised, and the pool.
unfoldable pub acquire : ℕ → ℕ → Pool → Acquired × List Conn × Pool
acquire now deadline p =
    let (stale, p') = collect_expired now p in
    let (result, p'') = acquire_open now deadline p' in
    if p.closed then (pool_closed, [], p) else (result, stale, p'')

-- The `except` of the connection attempt: the slot is given back.
unfoldable pub connect_failed : Pool → Pool
connect_failed p = record p { total_connections = p.total_connections - 1 }

-- `_release_pooled_connection`: whether the thread closes the connection next, and the pool.
unfoldable pub release : ℕ → Conn → Bool → Pool → Bool × Pool
release now conn broken p =
    if broken || p.closed
    then (true, record p { total_connections = p.total_connections - 1 })
    else (false, record p { available = p.available ++ (now, conn) ∷ [] })

-- `close` of an enabled pool: the connections that the thread closes next, and the pool.
unfoldable pub close : Pool → List Conn × Pool
close p = (
  map (λ x. x.1) p.available,
  record p {
    closed = true;
    available = [];
    total_connections = p.total_connections - length p.available;
  },
)
