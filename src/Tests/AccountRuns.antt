-- ===== src/Tests/AccountRuns.antt =====
-- Two administrators, one of whom is locked.
use doc_grading.Prelude.{◌≡◌, refl, true, none, some, [], ◌∷◌}
use doc_grading.Models.Enums.{UserRole, UserStatus, DocumentStatus}
use doc_grading.Models.Rows.{User}
use doc_grading.Models.Db.{Db}
use doc_grading.Models.Ensures.{Ensures}
use doc_grading.Accounts.{UserUpdate, update_user}
use doc_grading.Accounts.Administrators.{has_admin, has_admin-update_user}
use doc_grading.Tests.Data.{school, document, teacher}

abbrev manager : User
manager = record teacher { roles = UserRole.admin ∷ [] }

abbrev office : Db
office = record (school (document DocumentStatus.queued)) {
  users = (1, manager) ∷ (2, manager) ∷ [];
}

abbrev locking : UserUpdate
locking = record { roles = none; status = some UserStatus.locked; reason = "On leave" }

has_admin-update_user_example :
    Ensures (λ _ db'. has_admin db'.users ≡ true) (update_user 2 locking 1 (some 1) office)
unfolding has_admin
has_admin-update_user_example = has_admin-update_user 2 locking 1 (some 1) office refl
