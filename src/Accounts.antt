-- ===== src/Accounts.antt =====
-- Users as an administrator makes and changes them, `create_user` and `update_user` of
-- backend/app/services/operations.py.
pub mod Administrators
use doc_grading.Prelude.{
  ℕ, ◌+◌, String, Bool, true, false, not, ◌&&◌, ◌||◌, Option, none, some, List, [], ◌∷◌, find, put,
  ◌==◌, Table, if◌then◌else◌, or_else, find_by, is_some, str_eq,
}
use doc_grading.Models.Enums.{UserRole, UserStatus, has_role, is_admin, is_teacher, is_student}
use doc_grading.Models.Json.{Json, Items, Fields}
use doc_grading.Models.Rows.{User}
use doc_grading.Models.Db.{Db}
use doc_grading.Models.Tx.{Tx, Error, pure, raise_if, lookup, gets, modify, new_uuid, ◌>>=◌, ◌>>◌}
use doc_grading.Audit.{record_audit}

-- `AdminUserUpdateRequest`
pub record UserUpdate : Type 0 where
  pub roles : Option (List UserRole)
  pub status : Option UserStatus
  pub reason : String

abbrev eq_bool : Bool → Bool → Bool
eq_bool true b = b
eq_bool false b = not b

-- the two lists are the same set
abbrev pub same_roles : List UserRole → List UserRole → Bool
same_roles a b =
    eq_bool (has_role is_admin a) (has_role is_admin b)
    && eq_bool (has_role is_teacher a) (has_role is_teacher b)
    && eq_bool (has_role is_student a) (has_role is_student b)

abbrev pub cons_role : Bool → UserRole → List UserRole → List UserRole
cons_role true role roles = role ∷ roles
cons_role false role roles = roles

-- `[role for role in UserRole if role in requested_roles]`
abbrev pub canonical_roles : List UserRole → List UserRole
canonical_roles roles = cons_role (has_role is_admin roles) UserRole.admin (
    cons_role (has_role is_teacher roles) UserRole.teacher
      (cons_role (has_role is_student roles) UserRole.student []))

abbrev pub is_active_status : UserStatus → Bool
is_active_status UserStatus.active = true
is_active_status UserStatus.locked = false

abbrev same_status : UserStatus → UserStatus → Bool
same_status a b = eq_bool (is_active_status a) (is_active_status b)

abbrev pub is_active_admin : List UserRole → UserStatus → Bool
is_active_admin roles status = has_role is_admin roles && is_active_status status

-- another active administrator exists
unfoldable pub has_other_admin : ℕ → Table User → Bool
has_other_admin id [] = false
has_other_admin id ((j, u) ∷ t) =
    (not (j == id) && is_active_admin u.roles u.status) || has_other_admin id t

abbrev keeps_admin : Option (List UserRole) → Bool
keeps_admin none = true
keeps_admin (some roles) = has_role is_admin roles

abbrev locks : Option UserStatus → Bool
locks none = false
locks (some status) = not (is_active_status status)

abbrev role_value : UserRole → String
role_value UserRole.admin = "ADMIN"
role_value UserRole.teacher = "TEACHER"
role_value UserRole.student = "STUDENT"

abbrev role_items : List UserRole → Items
role_items [] = Items.nil
role_items (r ∷ rs) = Items.cons (Json.str (role_value r)) (role_items rs)

abbrev roles_field : List UserRole → Fields
roles_field roles = Fields.field "roles" (Json.arr (role_items roles)) Fields.end

abbrev user_status_value : UserStatus → String
user_status_value UserStatus.active = "ACTIVE"
user_status_value UserStatus.locked = "LOCKED"

abbrev user_status_field : UserStatus → Fields
user_status_field status = Fields.field "status" (Json.str (user_status_value status)) Fields.end

-- roles of the same set stay in their order
abbrev pub roles_after : List UserRole → List UserRole → List UserRole
roles_after old requested = if same_roles old requested then old else canonical_roles requested

abbrev pub changed_user : List UserRole → UserStatus → User → User
changed_user roles status u = record u {
  roles = roles_after u.roles roles;
  status = status;
  revision = u.revision + 1;
}

unfoldable pub put_user : ℕ → User → Tx (Unit {0})
put_user id u = modify λ db. record db { users = put id u db.users }

unfoldable pub audit_roles : ℕ → ℕ → List UserRole → List UserRole → String → Tx (Unit {0})
audit_roles actor id old requested reason =
    if same_roles old requested
    then pure tt
    else record_audit actor "User" id "ROLE_CHANGE" (some (roles_field old))
        (some (roles_field (canonical_roles requested))) reason

unfoldable pub audit_status : ℕ → ℕ → UserStatus → UserStatus → String → Tx (Unit {0})
audit_status actor id old requested reason =
    if same_status old requested
    then pure tt
    else record_audit actor "User" id (if is_active_status requested then "UNLOCK" else "LOCK")
        (some (user_status_field old)) (some (user_status_field requested)) reason

unfoldable pub store_user : ℕ → ℕ → User → List UserRole → UserStatus → String → Tx User
store_user actor id u roles status reason = do
  put_user id (changed_user roles status u)
  audit_roles actor id u.roles roles reason
  audit_status actor id u.status status reason
  pure (changed_user roles status u)

abbrev is_conflict : Option ℕ → User → Bool
is_conflict none u = false
is_conflict (some revision) u = not (u.revision == revision)

-- The response is given by the row.
unfoldable pub update_user : ℕ → UserUpdate → ℕ → Option ℕ → Tx User
update_user id body actor expected_revision = do
  u ← lookup (λ db. find id db.users) (Error.http 404 "User not found")
  raise_if (is_conflict expected_revision u) (Error.http 412 "User revision conflict")
  let roles = or_else body.roles u.roles
  let status = or_else body.status u.status
  raise_if (id == actor && (not (keeps_admin body.roles) || locks body.status))
      (Error.http 409 "Administrators cannot remove their own ADMIN role or lock their own account")
  other ← gets λ db. has_other_admin id db.users
  raise_if (is_active_admin u.roles u.status && not (is_active_admin roles status) && not other)
      (Error.http 409 "At least one active administrator must remain")
  if same_roles u.roles roles && same_status u.status status
      then pure u
      else store_user actor id u roles status body.reason

-- `AdminUserCreateRequest`, without the name that is shown
pub record NewUser : Type 0 where
  pub email : String
  pub password : String
  pub roles : List UserRole

abbrev pub new_user : (String → String) → NewUser → User
new_user hash_password body = record {
  email = body.email;
  password_hash = hash_password body.password;
  roles = canonical_roles body.roles;
  status = UserStatus.active;
  revision = 1;
  failed_login_attempts = 0;
  failed_login_window_started_at = none;
  login_locked_until = none;
}

abbrev pub roles_and_status : User → Fields
roles_and_status u =
    Fields.field "roles" (Json.arr (role_items u.roles)) (user_status_field u.status)

-- `sql_lower` is `lower` of PostgreSQL.
unfoldable pub create_user : (String → String) → (String → String) → NewUser → ℕ → Tx ℕ
create_user sql_lower hash_password body actor_user_id = do
  taken ← gets λ db. find_by (λ u. str_eq (sql_lower u.email) body.email) db.users
  raise_if (is_some taken) (Error.http 409 "Email is already registered")
  id ← new_uuid
  put_user id (new_user hash_password body)
  record_audit actor_user_id "User" id "CREATE" none
      (some (roles_and_status (new_user hash_password body))) "Administrator created account"
  pure id
