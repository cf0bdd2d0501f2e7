-- ===== src/Protection/Accepted.antt =====
-- Accepting the terms: it holds for the version that was accepted, with a session and without one.
use vendor_cat.Base.{Bool, String, true, Option, some, ◌≡◌}
use vendor_cat.Base.Text.{strip}
use vendor_cat.Base.Dict.{Dict}
use vendor_cat.Cache.{Cache}
use vendor_cat.Protection.Settings.{Settings, save_user_setting}
use vendor_cat.Protection.Terms.{TermsSetting, TermsState, Recorded, recorded, is_identified, hold}

module _ (resolve_user_id : String → Option (Option String)) where
  -- What a recording that is done asks for and leaves.
  record RecordedParts (deletes inserts : Bool) (principal version : String)
      (setting : TermsSetting) (s s' : TermsState) : Type 0 where
    known : is_identified principal ≡ true
    stripped : strip version ≡ version
    holds : s'.session ≡ hold principal setting.acceptance s.session
    saved :
        save_user_setting resolve_user_id deletes inserts principal setting s.settings
        ≡ some s'.settings

  state_of : TermsState → Recorded → TermsState
  state_of s (recorded s') = s'
  state_of s _ = s
