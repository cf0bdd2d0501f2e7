-- ===== src/Lookup/Options.antt =====
-- The lists of codes that the forms offer: the codes of the active options of a type, cleaned and
-- without repetitions, or the built-in ones where there is none. A list stands for the codes of the
-- rows that `list_lookup_options(…, active_only=True)` returns.
use vendor_cat.Base.{String, ◌||◌, List, [], ◌∷◌, contains, string_eq, if◌then◌else◌}
use vendor_cat.Base.Text.{normalize, is_empty}

-- The loop that all these methods share; `seen` holds what has been taken so far.
unfoldable pub collect : List String → List String → List String
unfolding contains
collect seen [] = []
collect seen (raw ∷ codes) =
    let value = normalize raw in
    let rest = collect seen codes in
    let more = collect (value ∷ seen) codes in
    if is_empty value || contains seen value then rest else value ∷ more

abbrev pub or_default : List String → List String → List String
or_default fallback [] = fallback
or_default fallback (v ∷ values) = v ∷ values

unfoldable pub list_options : List String → List String → List String
unfolding collect
list_options fallback codes = or_default fallback (collect [] codes)

abbrev pub default_doc_source_options : List String
default_doc_source_options =
    "sharepoint" ∷ "onedrive" ∷ "confluence" ∷ "google_drive" ∷ "box" ∷ "dropbox" ∷ "github"
    ∷ "other" ∷ []

abbrev pub default_doc_tag_options : List String
default_doc_tag_options =
    "contract" ∷ "msa" ∷ "nda" ∷ "sow" ∷ "invoice" ∷ "renewal" ∷ "security" ∷ "architecture"
    ∷ "runbook" ∷ "compliance" ∷ "rfp" ∷ "poc" ∷ "notes" ∷ "operations" ∷ "folder" ∷ []

abbrev pub default_owner_role_options : List String
default_owner_role_options =
    "business_owner" ∷ "executive_owner" ∷ "service_owner" ∷ "technical_owner" ∷ "security_owner"
    ∷ "application_owner" ∷ "platform_owner" ∷ "legacy_owner" ∷ []

abbrev pub default_assignment_type_options : List String
default_assignment_type_options = "consumer" ∷ "primary" ∷ "secondary" ∷ []

abbrev pub default_contact_type_options : List String
default_contact_type_options =
    "business" ∷ "account_manager" ∷ "support" ∷ "escalation" ∷ "security_specialist"
    ∷ "customer_success" ∷ "product_manager" ∷ []

abbrev pub default_project_type_options : List String
default_project_type_options = "rfp" ∷ "poc" ∷ "renewal" ∷ "implementation" ∷ "other" ∷ []

abbrev pub default_workflow_status_options : List String
default_workflow_status_options = "submitted" ∷ "in_review" ∷ "approved" ∷ "rejected" ∷ []

unfoldable pub list_doc_source_options : List String → List String
list_doc_source_options codes = list_options default_doc_source_options codes

unfoldable pub list_doc_tag_options : List String → List String
list_doc_tag_options codes = list_options default_doc_tag_options codes

unfoldable pub list_owner_role_options : List String → List String
list_owner_role_options codes = list_options default_owner_role_options codes

unfoldable pub list_assignment_type_options : List String → List String
list_assignment_type_options codes = list_options default_assignment_type_options codes

unfoldable pub list_contact_type_options : List String → List String
list_contact_type_options codes = list_options default_contact_type_options codes

unfoldable pub list_project_type_options : List String → List String
list_project_type_options codes = list_options default_project_type_options codes

unfoldable pub list_workflow_status_options : List String → List String
list_workflow_status_options codes = list_options default_workflow_status_options codes
