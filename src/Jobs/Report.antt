-- ===== src/Jobs/Report.antt =====
-- `processing_failure_report` of backend/app/services/analysis_job.py.
use doc_grading.Prelude.{
  ℕ, zero, suc, String, Bool, true, false, ◌||◌, Option, none, some, str_eq, if◌then◌else◌,
}
use doc_grading.Models.Json.{Json, Items, Fields, get}

abbrev is_str : String → Option Json → Bool
is_str s (some (Json.str t)) = str_eq t s
is_str s _ = false

-- `v in {"WARN", "REVIEW"}`; a list or a dict is not hashable, and raises `TypeError`
abbrev pub is_kept_disposition : Option Json → Option Bool
is_kept_disposition none = some false
is_kept_disposition (some (Json.arr _)) = none
is_kept_disposition (some (Json.obj _)) = none
is_kept_disposition (some (Json.str t)) = some (str_eq t "WARN" || str_eq t "REVIEW")
is_kept_disposition (some _) = some false

-- the `if` of the comprehension, evaluated from left to right
unfoldable pub is_kept : Json → Option Bool
is_kept (Json.obj item) =
    if is_str "SYSTEM" (get "category" item)
    then some false
    else is_kept_disposition (get "disposition" item)
is_kept _ = some false

abbrev cons_if : Json → Option Bool → Option Items → Option Items
cons_if item (some true) (some rest) = some (Items.cons item rest)
cons_if item (some false) rest = rest
cons_if item _ _ = none

unfoldable pub kept_items : Items → Option Items
kept_items Items.nil = some Items.nil
kept_items (Items.cons item rest) = cons_if item (is_kept item) (kept_items rest)

-- `diagnostics[:n]`
unfoldable pub take_items : ℕ → Items → Items
take_items zero items = Items.nil
take_items (suc n) Items.nil = Items.nil
take_items (suc n) (Items.cons item rest) = Items.cons item (take_items n rest)

-- `diagnostics.append(item)`
unfoldable pub append_item : Items → Json → Items
append_item Items.nil item = Items.cons item Items.nil
append_item (Items.cons first rest) item = Items.cons first (append_item rest item)

abbrev listed : Option Json → Items
listed (some (Json.arr items)) = items
listed _ = Items.nil

-- `prior_report.get("diagnostics")`, where both are of the type that the code wants
abbrev pub prior_diagnostics : Json → Items
prior_diagnostics (Json.obj report) = listed (get "diagnostics" report)
prior_diagnostics _ = Items.nil

-- The diagnostic of a failure, given its code and `code.lower()`.
abbrev pub system_diagnostic : String → String → Json
system_diagnostic code lower_code = Json.obj (
    Fields.field "code" (Json.str code) (
      Fields.field "category" (Json.str "SYSTEM") (
        Fields.field "disposition" (Json.str "RETRY") (
          Fields.field "scope" (Json.str "DOCUMENT") (
            Fields.field "page_number" Json.null (
              Fields.field "bbox" Json.null (
                Fields.field "metrics" (Json.obj Fields.end) (
                  Fields.field "message_key" (Json.str lower_code) (
                    Fields.field "action_key" (Json.str "pdf.retry_or_contact_support")
                      Fields.end)))))))))

abbrev pub failed_report : Items → Json
failed_report diagnostics = Json.obj (
    Fields.field "schema_version" (Json.num 1) (
      Fields.field "outcome" (Json.str "PROCESSING_FAILED")
        (Fields.field "diagnostics" (Json.arr diagnostics) Fields.end)))

abbrev with_failure : String → String → Option Items → Option Json
with_failure code lower_code none = none
with_failure code lower_code (some kept) =
    some (failed_report (append_item (take_items 24 kept) (system_diagnostic code lower_code)))

-- `none` where the code raises `TypeError`
unfoldable pub processing_failure_report : String → String → Json → Option Json
processing_failure_report code lower_code prior_report =
    with_failure code lower_code (kept_items (prior_diagnostics prior_report))
