-- ===== src/Lib.antt =====
-- Vendor Catalog: a web application over a catalogue of vendors, with roles, approvals and audit.
--
-- The parts that are modelled, all paths below app/vendor_catalog_app:
--
-- Roles (core/security.py, core/permissions.py, web/core/context.py, web/security/rbac.py,
-- domains/admin/policy.py below backend/repository_mixins). Roles/Levels has the default roles
-- with approval_level_for_roles, can_apply_change and their tables; Roles/Permissions the table of
-- change types by role; Roles/Context the properties of UserContext; Roles/Policy
-- resolve_role_policy over the rows of the two tables; Roles/Saving save_role_definition and
-- replace_role_permissions, and Roles/Replacing what is resolved after them; Roles/Endpoints
-- require_permission and the other checks. A set of roles is a list of which only the membership
-- is read. An approval level is a natural number.
--
-- RoleGrants (domains/admin/grants.py): rows of sec_user_role_map with grant_role,
-- change_role_grant and revoke_role_grant, the version of the policy and the audit of access.
-- RoleGrants/Groups has the roles of groups and the scopes of organization, and
-- RoleGrants/GroupNames normalize_group_principal of policy.py.
--
-- Workflow (domains/workflow/requests.py, domains/reporting/vendors.py, common/core/audit.py below
-- backend/repository_mixins, and web/routers/pending_approvals). Workflow/Payload has JSON values
-- and what is read of them, Workflow/Requests the rows and the update of their status,
-- Workflow/Creation the creation of requests, Workflow/Decisions the handler workflow_decision. A
-- Store holds the tables. An Env holds what answers from outside: json.loads and json.dumps, str
-- of a value that is no text, the user directory, the clock, and whether the statements of the
-- call succeed. Numbers in payloads are whole.
--
-- Lookup (domains/repository_lookup.py, common/core/lookup_schema.py): Lookup/Options has the
-- lists of codes that the forms offer, Lookup/Windows the validity windows by their days,
-- Lookup/Codes the cleaning of codes and labels, Lookup/Versions the rows and the loop that
-- numbers them anew, and Lookup/Saving the methods save_lookup_option and delete_lookup_option;
-- Lookup/Follows and Lookup/Orders say what a new order is, Lookup/Refusals why the methods raise.
-- Timestamps are moments already parsed, the type is one that is supported, and the table is not
-- empty, so that the built-in rows do not stand in for it.
--
-- Limiter (web/security/controls.py): SlidingWindowRateLimiter. The loop that evicts keys has the
-- number of times in _last_seen as its fuel, and takes one of them out in each round, so it ends
-- before the fuel does or with none left, where the code breaks. Limiter/History compares it with
-- the history of the accepted requests, Limiter/Capacity bounds its keys.
--
-- Cache (infrastructure/cache.py): LruTtlCache, its entries in the order of use.
--
-- Pool (infrastructure/db.py): the pool of DatabricksSQLClient. Each region under the condition is
-- a function, and Pool/Threads has the steps of the threads between them. Waking a waiting thread
-- and closing a connection outside the lock change no state of the pool.
--
-- Statements (infrastructure/db.py, core/config.py): _leading_sql_keyword,
-- _enforce_prod_sql_policy, _prepare, query and execute of DatabricksSQLClient with its cache of
-- results. A Client holds what answers from outside: the drivers, the rewriting for SQLite and the
-- conversion of parameters. Statements/Sessions is about sequences of calls.
--
-- Migrations (infrastructure/migrations.py): MigrationRunner over the files that were found and a
-- database with its two calls. A script answers whether it succeeds and the database it leaves,
-- since what a failed one has done stays. Migrations/Order is about the order of the files,
-- Migrations/Progress about the runs.
--
-- Imports (web/routers/imports): Imports and Imports/Applying have the ImportApplyContext of
-- apply_ops.py, Imports/Rows its apply_import_row, Imports/Previews the store of waiting previews
-- of store.py, and Imports/Matching, Imports/Searches, Imports/Suggestions, Imports/Options and
-- Imports/PreviewRows the matching of rows with stored records of matching.py, up to
-- build_preview_rows. The loop that drops the oldest preview has the number of entries as its fuel
-- and takes one out in each round; the printing of a number has more fuel than the number has
-- digits. The caches of ImportMatchContext are part of its answers: what a search answers is a
-- function of the key in lower case under which the context keeps it. Imports/Lasting and
-- Imports/Uses are about the waiting previews, Imports/Duplicates and Imports/Reloading about
-- contacts, Imports/Refused about rows that are refused.
--
-- Protection (web/security/controls.py, web/http/middleware.py, web/core/terms.py): the CSRF
-- token, the check of the origin, and the middleware of a request up to the call of its handler;
-- Protection/Settings has the user settings of domains/repository_identity.py with the cache
-- before them, and Protection/Terms the acceptance of the terms, which is stored there and whose
-- answer the middleware gets with the user.
--
-- The parts interact so: the handler of Workflow asks Roles/Context whether the user may decide,
-- reads its allowed statuses from Lookup/Options and writes the grant of an approved request
-- through RoleGrants. The client of Statements keeps its results in a Cache, the middleware of
-- Protection asks the Limiter, and Roles/Replacing reads back through Roles/Policy what
-- Roles/Saving wrote.
--
-- Base has the shared names, tests on native numbers, lists, dictionaries as association lists in
-- order of insertion, and the text methods of Python; its case mapping is that of the ASCII
-- letters. Times are ticks of a clock, a natural number, and not floats. A lock makes the region
-- under it one step.
--
-- Not modelled: the pages and templates, the statements as text, the connection itself, the
-- rewriting of statements for SQLite, metrics, the reading of configuration, the local database
-- and the scripts of the schema, which are input and output; the parsing, staging and mapping of
-- imported files; the reports, projects and offerings, whose operations are mostly statements over
-- tables.
pub mod Base
pub mod Roles
pub mod Limiter
pub mod Cache
pub mod Pool
pub mod RoleGrants
pub mod Lookup
pub mod Workflow
pub mod Statements
pub mod Migrations
pub mod Imports
pub mod Protection
