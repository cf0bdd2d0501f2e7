-- ===== src/Statements/Tests.antt =====
-- Statements and a session at concrete inputs. The database of the session counts its writes.
use vendor_cat.Base.{
  ℕ, suc, String, true, false, none, List, [], ◌∷◌, ◌≡◌, refl, contains, string_eq, nat_eq, pair_eq,
  if◌then◌else◌,
}
use vendor_cat.Base.Patterns.{replace_from, lstrip_chars}
use vendor_cat.Cache.{Cache, new, get, set, clear}
use vendor_cat.Statements.{
  AppConfig, Client, Reply, answered, returned, data_execution_error, read_verbs,
  leading_sql_keyword, enforce_prod_sql_policy, check_verb, prepare, fetched, query, execute,
}
use vendor_cat.Statements.Sessions.{Call, querying, executing, queried, executed, session}

abbrev production : AppConfig
production = record {
  use_local_db = false;
  env = "prod";
  enforce_prod_sql_policy = true;
  allowed_write_verbs = "INSERT" ∷ "UPDATE" ∷ "DELETE" ∷ "MERGE" ∷ [];
  fq_schema = "a.b";
}

keyword_test : leading_sql_keyword " /* a */ -- b\n  ((with x as (select 1)) select 1" ≡ "WITH"
unfolding leading_sql_keyword
keyword_test = refl

-- A comment that opens inside another hides a statement from the keyword: the database would drop the
-- table, the policy sees a SELECT.
hidden_keyword_test : leading_sql_keyword "-- /*\nDROP TABLE t;\n-- */\nSELECT 1" ≡ "SELECT"
unfolding leading_sql_keyword
hidden_keyword_test = refl

prepare_test : prepare production (λ s. s) "SELECT %s" ≡ "SELECT ?"
unfolding prepare replace_from lstrip_chars
prepare_test = refl

abbrev counting : String → ℕ → ℕ → Reply ℕ × ℕ
counting statement params db =
    if contains read_verbs (leading_sql_keyword statement)
    then (answered db, db)
    else (answered 0, suc db)

abbrev client : Client ℕ ℕ ℕ
client = record { config = production; rewrite = λ s. s; prepare_params = λ p. p; run = counting }

abbrev cache : Cache (String × ℕ) ℕ
cache = new true 300 8 1 none

abbrev calls : List (Call ℕ)
calls =
    querying 1 "SELECT a" 0
    ∷ querying 2 "SELECT a" 0
    ∷ executing "UPDATE a" 0
    ∷ querying 3 "SELECT a" 0
    ∷ executing "DROP TABLE a" 0
    ∷ []

session_test :
    (session client calls (cache, 5)).0
    ≡ queried (returned 5)
      ∷ queried (returned 5)
      ∷ executed (returned tt)
      ∷ queried (returned 6)
      ∷ executed data_execution_error
      ∷ []
unfolding session query execute enforce_prod_sql_policy check_verb leading_sql_keyword prepare
    replace_from fetched new get set clear
session_test = refl
