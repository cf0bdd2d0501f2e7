-- ===== src/Protection/Terms.antt =====
-- web/core/terms.py: whether a user has accepted the current terms, and recording that. The version,
-- which is a digest of the text, is a parameter. The effective date is a constant and left out.
use Prim.Native.String.{◌++◌ as append}
use vendor_cat.Base.{
  ℕ, String, Bool, true, false, not, ◌&&◌, ◌||◌, Option, none, some, ◌==◌, string_eq, if◌then◌else◌,
}
use vendor_cat.Base.Patterns.{take_chars}
use vendor_cat.Base.Text.{strip, normalize, is_empty}
use vendor_cat.Base.Dict.{Dict, lookup, insert}
use vendor_cat.Protection.Settings.{Settings, get_user_setting, save_user_setting}
use vendor_cat.Workflow.Requests.{unknown_user_principal}

pub record Acceptance : Type 0 where
  pub accepted : Bool
  pub version : String
  pub accepted_at : String

-- What is stored with the acceptance
pub record TermsSetting : Type 0 where
  pub acceptance : Acceptance
  pub user_agent : String
  pub client_host : String

-- The acceptances that the session holds, `none` without a session, and the settings
pub record TermsState : Type 0 where
  pub session : Option (Dict String Acceptance)
  pub settings : Settings TermsSetting

-- What recording comes to: done, or one of the two errors, or an error of the call that saves
pub data Recorded : Type 0 where
  recorded : TermsState → Recorded
  identity_required : Recorded
  version_outdated : Recorded
  not_saved : Recorded

-- `_session_key`
unfoldable pub session_key : String → String
session_key user_principal = append "tvendor_terms_acceptance:" (normalize user_principal)

-- `_is_acceptance_valid`
unfoldable pub is_acceptance_valid : Acceptance → String → Bool
is_acceptance_valid a expected_version = a.accepted && strip a.version == expected_version

abbrev pub nothing_accepted : Acceptance
nothing_accepted = record { accepted = false; version = ""; accepted_at = "" }

abbrev pub is_identified : String → Bool
is_identified principal = not (is_empty principal || principal == unknown_user_principal)

-- The acceptance that the session holds, and the one that is stored: none where the read raises
unfoldable pub held : String → Option (Dict String Acceptance) → Acceptance
held principal none = nothing_accepted
held principal (some session) = elim (lookup (session_key principal) session) [
  | none ↦ nothing_accepted
  | some a ↦ a
]

abbrev pub stored_acceptance : Option (Option TermsSetting) → Acceptance
stored_acceptance (some (some setting)) = setting.acceptance
stored_acceptance _ = nothing_accepted

-- session[session_key] = payload, where there is a session
abbrev pub hold :
    String → Acceptance → Option (Dict String Acceptance) → Option (Dict String Acceptance)
hold principal a none = none
hold principal a (some session) = some (insert (session_key principal) a session)

-- The setting that `record_terms_acceptance` saves
abbrev pub terms_setting : String → String → String → String → TermsSetting
terms_setting version now_iso user_agent client_host = record {
  acceptance = record { accepted = true; version = version; accepted_at = now_iso };
  user_agent = take_chars 400 (strip user_agent);
  client_host = take_chars 120 (strip client_host);
}

module _ (resolve_user_id : String → Option (Option String)) where
  -- `has_current_terms_acceptance` at `now`; `reads` says whether the query of the setting succeeds
  unfoldable pub has_current_terms_acceptance :
      Bool → String → Bool → ℕ → String → TermsState → Bool × TermsState
  has_current_terms_acceptance enforced version reads now user_principal s =
      let principal = strip user_principal in
      let read = get_user_setting resolve_user_id reads now principal s.settings in
      let stored = stored_acceptance read.0 in
      let kept : Acceptance = record {
        accepted = true;
        version = version;
        accepted_at = stored.accepted_at;
      } in
      if not enforced
      then (true, s)
      else if not (is_identified principal)
      then (false, s)
      else if is_acceptance_valid (held principal s.session) version
      then (true, s)
      else if is_acceptance_valid stored version
      then (true, record { session = hold principal kept s.session; settings = read.1 })
      else (false, record s { settings = read.1 })

  -- `record_terms_acceptance`; `deletes` and `inserts` say whether the statements of the save succeed
  unfoldable pub record_terms_acceptance :
      Bool → Bool → String → String → String → String → String → String → TermsState → Recorded
  record_terms_acceptance deletes inserts version user_principal accepted_version now_iso user_agent
        client_host s =
      let principal = strip user_principal in
      let setting = terms_setting version now_iso user_agent client_host in
      if not (is_identified principal)
      then identity_required
      else if not (strip accepted_version == version)
      then version_outdated
      else elim (save_user_setting resolve_user_id deletes inserts principal setting s.settings) [
        | none ↦ not_saved
        | some settings ↦
            recorded (record {
              session = hold principal setting.acceptance s.session;
              settings = settings;
            })
      ]
