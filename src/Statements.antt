-- ===== src/Statements.antt =====
-- infrastructure/db.py: the statements that `DatabricksSQLClient` lets through, and `query` and
-- `execute` with the cache of results. The drivers are the parameter `run`: the answer of the database
-- to a statement with its parameters, and the database after it. The rewriting of functions for SQLite
-- and the conversion of dates among the parameters are functions given with it.
pub mod Freshness
pub mod Sessions
pub mod Tests
use Prim.Native.Char.{code}
use Prim.Native.String
use text.Mathlib.Text.{starts_with}
use vendor_cat.Base.{
  ℕ, zero, suc, ◌+◌, String, Bool, true, false, not, ◌&&◌, ◌||◌, Option, none, some, List, [], ◌∷◌,
  ◌++◌, map, keep, contains, nat_beq, BoolEq, ◌==◌, string_eq, if◌then◌else◌,
}
use vendor_cat.Base.Text.{strip, is_empty, is_space, upper}
use vendor_cat.Base.Patterns.{
  is_line_end, has_code, split_by, before, lstrip_chars, join, replace, replace_from,
}
use vendor_cat.Cache.{Cache, get, set, clear}

-- How many characters of a text there are up to the end of the first "*/".
unfoldable pub comment_end : String → Option ℕ
comment_end String.[] = none
comment_end (String.◌∷◌ c s) =
    let rest = comment_end s in
    if has_code 42 c && starts_with s "/"
    then some 2
    else elim rest [ none ↦ none | some n ↦ some (suc n) ]

-- How many characters follow the "/" that starts a closed comment.
abbrev pub comment_rest : String → Option ℕ
comment_rest (String.◌∷◌ c (String.◌∷◌ d s)) =
    if has_code 47 c && has_code 42 d
    then elim (comment_end s) [ none ↦ none | some n ↦ some (suc n) ]
    else none
comment_rest _ = none

-- re.sub(r"/\*.*?\*/", " ", text): `skip` characters of a comment are still to be passed over.
unfoldable pub blank_comments : ℕ → String → String
unfolding comment_end
blank_comments skip String.[] = String.[]
blank_comments (suc skip) (String.◌∷◌ c s) = blank_comments skip s
blank_comments zero (String.◌∷◌ c s) = elim (comment_rest (String.◌∷◌ c s)) [
  | some n ↦ String.◌∷◌ (Prim.Native.String.char_at " " 0) (blank_comments n s)
  | none ↦ String.◌∷◌ c (blank_comments 0 s)
]

-- The lines that are neither empty nor a comment.
unfoldable pub statement_lines : String → List String
unfolding is_line_end split_by strip is_empty keep
statement_lines text =
    keep (λ line. not (is_empty line || starts_with line "--"))
      (map strip (split_by is_line_end text))

-- `_leading_sql_keyword`
unfoldable pub leading_sql_keyword : String → String
unfolding strip is_empty is_space blank_comments statement_lines join lstrip_chars before upper
leading_sql_keyword statement =
    let normalized = strip (
      lstrip_chars (has_code 40)
        (join " " (statement_lines (blank_comments 0 (strip statement))))) in
    upper (before is_space normalized)

pub record AppConfig : Type 0 where
  pub use_local_db : Bool
  pub env : String
  pub enforce_prod_sql_policy : Bool
  pub allowed_write_verbs : List String
  pub fq_schema : String

-- What `_enforce_prod_sql_policy` raises.
pub data Violation : Type 0 where
  empty_statement : Violation
  ddl_blocked : String → Violation
  read_not_allowed : String → Violation
  write_not_allowed : String → List String → Violation

abbrev pub ddl_verbs : List String
ddl_verbs = "CREATE" ∷ "ALTER" ∷ "DROP" ∷ "TRUNCATE" ∷ []

abbrev pub read_verbs : List String
read_verbs = "SELECT" ∷ "WITH" ∷ []

-- `_enforce_prod_sql_policy` in production, for the leading verb of the statement
unfoldable pub check_verb : List String → Bool → String → Option Violation
unfolding is_empty contains
check_verb allowed is_query verb =
    if is_empty verb
    then some empty_statement
    else if contains ddl_verbs verb
    then some (ddl_blocked verb)
    else if is_query
    then if contains read_verbs verb then none else some (read_not_allowed verb)
    else if contains allowed verb
    then none
    else some (write_not_allowed verb allowed)

-- `_enforce_prod_sql_policy`: `none` where it lets the statement through
unfoldable pub enforce_prod_sql_policy : AppConfig → String → Bool → Option Violation
enforce_prod_sql_policy config statement is_query =
    if config.use_local_db
    then none
    else if not (config.env == "prod") || not config.enforce_prod_sql_policy
    then none
    else check_verb config.allowed_write_verbs is_query (leading_sql_keyword statement)

-- `_prepare`; `rewrite` is `_rewrite_sql_for_sqlite`
unfoldable pub prepare : AppConfig → (String → String) → String → String
prepare config rewrite statement =
    let normalized = replace "%s" "?" (lstrip_chars (has_code 65279) statement) in
    if config.use_local_db
    then rewrite (replace (Prim.Native.String.◌++◌ config.fq_schema ".") "" normalized)
    else normalized

-- What the drivers answer, and what the client returns or raises.
pub data Reply (F : Type 0) : Type 0 where
  answered : F → Reply F
  not_connected : Reply F
  rejected : Reply F

pub data Outcome (A : Type 0) : Type 0 where
  returned : A → Outcome A
  data_connection_error : Outcome A
  data_query_error : Outcome A
  data_execution_error : Outcome A

-- The client: its settings, and what it leaves to others. `P` are the parameters of a statement, `F`
-- its rows, `D` the database.
pub record Client (P F D : Type 0) : Type 0 where
  pub config : AppConfig
  pub rewrite : String → String
  pub prepare_params : P → P
  pub run : String → P → D → Reply F × D

module _ {P F : Type 0} ⦃e : BoolEq (String × P)⦄ where
  -- The look into the cache that `query` begins with
  abbrev pub cached : Bool → Cache (String × P) F → String × P → ℕ → Option F × Cache (String × P) F
  cached true cache key now = get cache key now
  cached false cache key now = (none, cache)

module _ {P F D : Type 0} ⦃e : BoolEq (String × P)⦄ where
  -- What `query` does with the answer of the database
  abbrev pub stored :
      Bool
      → ℕ
      → String × P
      → Cache (String × P) F
      → Reply F × D
      → Outcome F × (Cache (String × P) F × D)
  stored true now key cache (answered frame, db) =
      (returned frame, (set cache key frame none now, db))
  stored false now key cache (answered frame, db) = (returned frame, (cache, db))
  stored use_cache now key cache (not_connected, db) = (data_connection_error, (cache, db))
  stored use_cache now key cache (rejected, db) = (data_query_error, (cache, db))

  -- What `query` returns once the cache was looked at: the stored result, or that of the database.
  unfoldable pub fetched :
      Bool
      → ℕ
      → String × P
      → Reply F × D
      → D
      → Option F × Cache (String × P) F
      → Outcome F × (Cache (String × P) F × D)
  fetched use_cache now key reply db (some frame, cache) = (returned frame, (cache, db))
  fetched use_cache now key reply db (none, cache) = stored use_cache now key cache reply

  -- `query`: the statement is run at `now`, and its result stored at the same time
  unfoldable pub query :
      Client P F D
      → ℕ
      → String
      → P
      → Cache (String × P) F × D
      → Outcome F × (Cache (String × P) F × D)
  query c now statement params (cache, db) =
      let prepared = prepare c.config c.rewrite statement in
      let key : String × P = (prepared, c.prepare_params params) in
      let use_cache = contains read_verbs (leading_sql_keyword prepared) in
      elim (enforce_prod_sql_policy c.config prepared true) [
        | some violation ↦ (data_query_error, (cache, db))
        | none ↦
            fetched use_cache now key (c.run prepared (c.prepare_params params) db) db
              (cached use_cache cache key now)
      ]

  -- What `execute` does with the answer of the database
  abbrev pub written :
      Cache (String × P) F → Reply F × D → Outcome Unit × (Cache (String × P) F × D)
  written cache (answered frame, db) = (returned tt, (clear cache, db))
  written cache (not_connected, db) = (data_connection_error, (cache, db))
  written cache (rejected, db) = (data_execution_error, (cache, db))

  -- `execute`
  unfoldable pub execute :
      Client P F D
      → String
      → P
      → Cache (String × P) F × D
      → Outcome Unit × (Cache (String × P) F × D)
  execute c statement params (cache, db) =
      let prepared = prepare c.config c.rewrite statement in
      elim (enforce_prod_sql_policy c.config prepared false) [
        | some violation ↦ (data_execution_error, (cache, db))
        | none ↦ written cache (c.run prepared (c.prepare_params params) db)
      ]
