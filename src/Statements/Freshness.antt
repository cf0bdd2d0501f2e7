-- ===== src/Statements/Freshness.antt =====
-- The cache of results is not to be seen: a session of queries and writes ends as it would without it.
use vendor_cat.Base.{
  ℕ, String, Bool, true, false, Bool-cases, Option, none, some, ◌≡◌, refl, sym, ◌∙◌, contains,
  string_eq, ◌⊎◌, BoolEq, inl, inr, Option-cases, subst,
}
use vendor_cat.Cache.{Cache, get, set, clear, clone}
use vendor_cat.Cache.Contents.{
  Everywhere, Found, get-Found, set-Everywhere, set-clone_value, clone_same,
}
use vendor_cat.Statements.{
  Client, Outcome, Reply, returned, answered, not_connected, rejected, read_verbs,
  enforce_prod_sql_policy, leading_sql_keyword, prepare, query, execute, stored, written, fetched,
  data_query_error, data_execution_error, data_connection_error,
}

module _ {F D : Type 0} where
  -- What a client without a cache makes of an answer of the database.
  abbrev pub read_reply : Reply F × D → Outcome F × D
  read_reply (answered frame, db) = (returned frame, db)
  read_reply (not_connected, db) = (data_connection_error, db)
  read_reply (rejected, db) = (data_query_error, db)

  abbrev pub write_reply : Reply F × D → Outcome Unit × D
  write_reply (answered frame, db) = (returned tt, db)
  write_reply (not_connected, db) = (data_connection_error, db)
  write_reply (rejected, db) = (data_execution_error, db)

module _ {P F D : Type 0} where
  -- `query` and `execute` without a cache.
  pub direct_query : Client P F D → String → P → D → Outcome F × D
  direct_query c statement params db =
      let prepared = prepare c.config c.rewrite statement in
      elim (enforce_prod_sql_policy c.config prepared true) [
        | some violation ↦ (data_query_error, db)
        | none ↦ read_reply (c.run prepared (c.prepare_params params) db)
      ]

  pub direct_execute : Client P F D → String → P → D → Outcome Unit × D
  direct_execute c statement params db =
      let prepared = prepare c.config c.rewrite statement in
      elim (enforce_prod_sql_policy c.config prepared false) [
        | some violation ↦ (data_execution_error, db)
        | none ↦ write_reply (c.run prepared (c.prepare_params params) db)
      ]

  -- What the database answers to a statement, when it answers with rows and stays as it is.
  abbrev pub Holds : Client P F D → D → String × P → F → Type 0
  Holds c db key frame = c.run key.0 key.1 db ≡ (answered frame, db)

  -- A statement, as it is prepared, that only reads: it leaves any database as it is.
  abbrev pub ReadsOnly : Client P F D → String → P → Type 0
  ReadsOnly c statement params =
      (db : D) → (c.run (prepare c.config c.rewrite statement) (c.prepare_params params) db).1 ≡ db

  -- A statement that fails as a whole: it is answered, or it leaves the database as it is.
  abbrev pub FailsWhole : Client P F D → String → P → Type 0
  FailsWhole c statement params =
      (db : D)
      → let reply = c.run (prepare c.config c.rewrite statement) (c.prepare_params params) db in
        ((f : F) × (reply.0 ≡ answered f)) ⊎ (reply.1 ≡ db)

module _ {P F D : Type 0} ⦃e : BoolEq (String × P)⦄ (c : Client P F D) where
  -- Every stored result is what the database would answer now, and reading a result gives it unchanged.
  abbrev pub Coherent : Cache (String × P) F × D → Type 0
  Coherent (cache, db) = ((f : F) → clone cache f ≡ f) × Everywhere (Holds c db) cache

  clear-Coherent :
      (cache : Cache (String × P) F) (db db' : D)
      → Coherent (cache, db)
      → Coherent (clear cache, db')
  unfolding clear
  clear-Coherent cache db db' (copies, h) = (copies, tt)

  written-Coherent :
      (cache : Cache (String × P) F) (db : D) (reply : Reply F × D)
      → ((f : F) × (reply.0 ≡ answered f)) ⊎ (reply.1 ≡ db)
      → Coherent (cache, db)
      → Coherent (written cache reply).1
  written-Coherent cache db (answered f, db') fails h = clear-Coherent cache db db' h
  written-Coherent cache db (not_connected, db') (inr q) h =
      subst (λ d. Coherent (cache, d)) (sym q) h
  written-Coherent cache db (rejected, db') (inr q) h = subst (λ d. Coherent (cache, d)) (sym q) h
  written-Coherent cache db (not_connected, db') (inl (f, q)) h = absurd (cc)
  written-Coherent cache db (rejected, db') (inl (f, q)) h = absurd (cc)

  written-direct :
      (cache : Cache (String × P) F) (reply : Reply F × D)
      → ((written cache reply).0 ≡ (write_reply reply).0)
        × ((written cache reply).1.1 ≡ (write_reply reply).1)
  written-direct cache (answered f, db) = (refl, refl)
  written-direct cache (not_connected, db) = (refl, refl)
  written-direct cache (rejected, db) = (refl, refl)

  -- A result stored as the database gave it.
  stored-Coherent :
      (now : ℕ) (key : String × P) (cache : Cache (String × P) F) (db : D) (reply : Reply F × D)
      → c.run key.0 key.1 db ≡ reply
      → reply.1 ≡ db
      → Coherent (cache, db)
      → Coherent (stored true now key cache reply).1
  stored-Coherent now key cache db (answered f, db') q same (copies, h) =
      let holds : Holds c db key (clone cache f) =
        subst (λ g. Holds c db key g) (sym (copies f))
          (subst (λ d. c.run key.0 key.1 db ≡ (answered f, d)) same q) in
      subst (λ d. Coherent (set cache key f none now, d)) (sym same)
        (
          λ g.
              clone_same cache (set cache key f none now) g (set-clone_value cache key f none now)
              ∙ copies g,
          set-Everywhere (Holds c db) cache key f none now holds h,
        )
  stored-Coherent now key cache db (not_connected, db') q same h =
      subst (λ d. Coherent (cache, d)) (sym same) h
  stored-Coherent now key cache db (rejected, db') q same h =
      subst (λ d. Coherent (cache, d)) (sym same) h

  stored-direct :
      (use_cache : Bool) (now : ℕ) (key : String × P) (cache : Cache (String × P) F)
      (reply : Reply F × D)
      → ((stored use_cache now key cache reply).0 ≡ (read_reply reply).0)
        × ((stored use_cache now key cache reply).1.1 ≡ (read_reply reply).1)
  stored-direct true now key cache (answered f, db) = (refl, refl)
  stored-direct false now key cache (answered f, db) = (refl, refl)
  stored-direct use_cache now key cache (not_connected, db) = (refl, refl)
  stored-direct use_cache now key cache (rejected, db) = (refl, refl)

  -- The same outcome and database as without the cache, and a cache that agrees with that database.
  abbrev pub Agrees : {A : Type 0} → Outcome A × (Cache (String × P) F × D) → Outcome A × D → Type 0
  Agrees r d = (r.0 ≡ d.0) × (r.1.1 ≡ d.1) × Coherent r.1

  looked-Agrees :
      (now : ℕ) (key : String × P) (cache : Cache (String × P) F) (db : D)
      (looked : Option F × Cache (String × P) F)
      → (c.run key.0 key.1 db).1 ≡ db
      → ((f : F) → clone cache f ≡ f)
      → Found (Holds c db) cache key looked
      → Agrees
          (fetched true now key (c.run key.0 key.1 db) db looked)
          (read_reply (c.run key.0 key.1 db))
  unfolding fetched
  looked-Agrees now key cache db (some frame, cache') same copies (h, q, answers) =
      let (v, holds, w) = answers frame refl in
      let run : c.run key.0 key.1 db ≡ (answered frame, db) =
        subst (λ f. c.run key.0 key.1 db ≡ (answered f, db)) (sym (w ∙ copies v)) holds in
      rw run (refl, refl, (λ f. clone_same cache cache' f q ∙ copies f, h))
  looked-Agrees now key cache db (none, cache') same copies (h, q, answers) =
      let reply = c.run key.0 key.1 db in
      let (out, left) = stored-direct true now key cache' reply in
      let copies' : (f : F) → clone cache' f ≡ f = λ f. clone_same cache cache' f q ∙ copies f in
      (out, left, stored-Coherent now key cache' db reply refl same (copies', h))

  -- A result that is not stored.
  unstored-Coherent :
      (now : ℕ) (key : String × P) (cache : Cache (String × P) F) (db : D) (reply : Reply F × D)
      → reply.1 ≡ db
      → Coherent (cache, db)
      → Coherent (stored false now key cache reply).1
  unstored-Coherent now key cache db (answered f, db') same h =
      subst (λ d. Coherent (cache, d)) (sym same) h
  unstored-Coherent now key cache db (not_connected, db') same h =
      subst (λ d. Coherent (cache, d)) (sym same) h
  unstored-Coherent now key cache db (rejected, db') same h =
      subst (λ d. Coherent (cache, d)) (sym same) h

  unlooked-Agrees :
      (now : ℕ) (key : String × P) (cache : Cache (String × P) F) (db : D)
      → (c.run key.0 key.1 db).1 ≡ db
      → Coherent (cache, db)
      → Agrees
          (fetched false now key (c.run key.0 key.1 db) db (none, cache))
          (read_reply (c.run key.0 key.1 db))
  unfolding fetched
  unlooked-Agrees now key cache db same h =
      let reply = c.run key.0 key.1 db in
      let (out, left) = stored-direct false now key cache reply in
      (out, left, unstored-Coherent now key cache db reply same h)

  pub query-Agrees :
      (now : ℕ) (statement : String) (params : P) (s : Cache (String × P) F × D)
      → ReadsOnly c statement params
      → Coherent s
      → Agrees (query c now statement params s) (direct_query c statement params s.1)
  unfolding query direct_query
  query-Agrees now statement params (cache, db) reads (copies, h) =
      let prepared = prepare c.config c.rewrite statement in
      let key : String × P = (prepared, c.prepare_params params) in
      elim (Option-cases (enforce_prod_sql_policy c.config prepared true)) [
        | inr (violation, q) ↦ rw (q, query, direct_query) (refl, refl, (copies, h))
        | inl passes ↦ elim (Bool-cases (contains read_verbs (leading_sql_keyword prepared))) [
          | inl looked ↦
              rw (passes, looked, query, direct_query)
                (looked-Agrees now key cache db (get cache key now) (reads db) copies
                  (get-Found (Holds c db) cache key now h))
          | inr other ↦
              rw (passes, other, query, direct_query)
                (unlooked-Agrees now key cache db (reads db) (copies, h))
        ]
      ]

  pub execute-Agrees :
      (statement : String) (params : P) (s : Cache (String × P) F × D)
      → FailsWhole c statement params
      → Coherent s
      → Agrees (execute c statement params s) (direct_execute c statement params s.1)
  unfolding execute direct_execute
  execute-Agrees statement params (cache, db) failing h =
      let prepared = prepare c.config c.rewrite statement in
      elim (Option-cases (enforce_prod_sql_policy c.config prepared false)) [
        | inr (violation, q) ↦ rw (q, execute, direct_execute) (refl, refl, h)
        | inl passes ↦
            let reply = c.run prepared (c.prepare_params params) db in
            let (out, left) = written-direct cache reply in
            rw (passes, execute, direct_execute)
              (out, left, written-Coherent cache db reply (failing db) h)
      ]
