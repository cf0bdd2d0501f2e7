-- ===== src/Pool/Threads.antt =====
-- The threads over one pool, as interleaved steps: each step is a region under the lock, or what a
-- thread does between two of them.
use vendor_cat.Base.{ℕ, ◌+◌, ◌-◌, ◌≤◌, Bool, List, [], ◌∷◌, ◌++◌, ◌≡◌, nat_eq}
use vendor_cat.Pool.{
  Conn, Pool, new, candidate, should_create, timed_out, waits, acquire, connect_failed, release,
  close,
}

-- The pool with the connections that threads hold, the number of threads that have reserved a slot and
-- are connecting, and the number of slots that a failed `_validate()` has left reserved.
pub record System : Type 0 where
  pub pool : Pool
  pub leased : List Conn
  pub connecting : ℕ
  pub lost : ℕ

abbrev pub start : ℕ → ℕ → System
start max_size idle_ttl = record {
  pool = new max_size idle_ttl;
  leased = [];
  connecting = 0;
  lost = 0;
}

pub data Step (s : System) : System → Type 0 where
  -- A round of `_acquire_pooled_connection` that hands out a pooled connection.
  take :
      (now deadline : ℕ) (c : Conn)
      → (acquire now deadline s.pool).0 ≡ candidate c
      → Step s (record s { pool = (acquire now deadline s.pool).2; leased = c ∷ s.leased })
  -- A round that reserves a slot for a new connection.
  reserve :
      (now deadline : ℕ)
      → (acquire now deadline s.pool).0 ≡ should_create
      → Step s (record s { pool = (acquire now deadline s.pool).2; connecting = s.connecting + 1 })
  -- A round that waits.
  wait :
      (now deadline : ℕ)
      → (acquire now deadline s.pool).0 ≡ waits
      → Step s (record s { pool = (acquire now deadline s.pool).2 })
  -- A round that raises the time-out.
  time_out :
      (now deadline : ℕ)
      → (acquire now deadline s.pool).0 ≡ timed_out
      → Step s (record s { pool = (acquire now deadline s.pool).2 })
  -- `_validate()` raises: the exception leaves the method, and the slot stays reserved.
  validate_failed :
      1 ≤ s.connecting → Step s (record s { connecting = s.connecting - 1; lost = s.lost + 1 })
  connected :
      (c : Conn)
      → 1 ≤ s.connecting
      → Step s (record s { connecting = s.connecting - 1; leased = c ∷ s.leased })
  not_connected :
      1 ≤ s.connecting
      → Step s (record s { connecting = s.connecting - 1; pool = connect_failed s.pool })
  -- A thread gives back a connection that it holds.
  give_back :
      (now : ℕ) (broken : Bool) (before after : List Conn) (c : Conn)
      → s.leased ≡ before ++ c ∷ after
      → Step s (record s { leased = before ++ after; pool = (release now c broken s.pool).1 })
  shut : Step s (record s { pool = (close s.pool).1 })

pub data Reach (s : System) : System → Type 0 where
  here : Reach s s
  next : {t u : System} → Reach s t → Step t u → Reach s u
