-- ===== src/Statements/Sessions.antt =====
-- A client over a whole session of queries and writes, with the cache of results and without it.
use vendor_cat.Base.{ℕ, String, BoolEq, List, [], ◌∷◌}
use vendor_cat.Cache.{Cache}
use vendor_cat.Statements.{Client, Outcome, query, execute}
use vendor_cat.Statements.Freshness.{ReadsOnly, FailsWhole, direct_query, direct_execute}

-- A call of the client, a query with its time, and what the call came to.
pub data Call (P : Type 0) : Type 0 where
  querying : ℕ → String → P → Call P
  executing : String → P → Call P

pub data Result (F : Type 0) : Type 0 where
  queried : Outcome F → Result F
  executed : Outcome Unit → Result F

module _ {P F D : Type 0} (c : Client P F D) where
  abbrev pub direct_call : Call P → D → Result F × D
  direct_call (querying now statement params) db =
      let r = direct_query c statement params db in (queried r.0, r.1)
  direct_call (executing statement params) db =
      let r = direct_execute c statement params db in (executed r.0, r.1)

  unfoldable pub direct_session : List (Call P) → D → List (Result F) × D
  direct_session [] db = ([], db)
  direct_session (call ∷ calls) db =
      let r = direct_call call db in let rest = direct_session calls r.1 in (r.0 ∷ rest.0, rest.1)

module _ {P F D : Type 0} ⦃e : BoolEq (String × P)⦄ (c : Client P F D) where
  abbrev pub call_once : Call P → Cache (String × P) F × D → Result F × (Cache (String × P) F × D)
  call_once (querying now statement params) s =
      let r = query c now statement params s in (queried r.0, r.1)
  call_once (executing statement params) s =
      let r = execute c statement params s in (executed r.0, r.1)

  unfoldable pub session :
      List (Call P) → Cache (String × P) F × D → List (Result F) × (Cache (String × P) F × D)
  session [] s = ([], s)
  session (call ∷ calls) s =
      let r = call_once call s in let rest = session calls r.1 in (r.0 ∷ rest.0, rest.1)

  -- What a call asks of the database: a query only reads, and a write that fails leaves nothing behind.
  abbrev pub Proper : Call P → Type 0
  Proper (querying now statement params) = ReadsOnly c statement params
  Proper (executing statement params) = FailsWhole c statement params
