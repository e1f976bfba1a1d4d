-- ===== src/Courses/Members.antt =====
-- The members of a course, `add_member` and `remove_member` of backend/app/services/course.py.
use doc_grading.Prelude.{
  ℕ, String, Bool, false, not, Option, none, some, find_by, put, remove, is_none, str_eq, strip,
  ◌&&◌, ◌==◌, if◌then◌else◌,
}
use doc_grading.Models.Enums.{MembershipStatus, JoinedVia, has_role, is_student}
use doc_grading.Models.Json.{Json, Fields}
use doc_grading.Models.Rows.{User, Membership, CourseInvite}
use doc_grading.Models.Tx.{Tx, Error, pure, raise_if, gets, lookup, modify, new_uuid, ◌>>=◌, ◌>>◌}
use doc_grading.Audit.{record_audit}
use doc_grading.Courses.{
  Folding, lock_active_course, put_membership, member_snapshot, is_membership_of, is_active_member,
  reason_or,
}

-- `MembershipAddOutcome` with the membership, or with the invite
pub data Addition : Type 0 where
  invited : ℕ → Addition
  added reactivated : ℕ → Addition

-- `reason.strip() if reason else None`
abbrev pub given_reason : Option String → Option String
given_reason none = none
given_reason (some reason) = if str_eq reason "" then none else some (strip reason)

abbrev pub is_invite_of : Folding → ℕ → String → CourseInvite → Bool
is_invite_of fold course_id email i =
    i.course_id == course_id && str_eq (fold.sql_lower i.email) email

abbrev pub new_membership : ℕ → JoinedVia → ℕ → ℕ → Membership
new_membership now via course_id user_id = record {
  course_id = course_id;
  user_id = user_id;
  status = MembershipStatus.active;
  joined_via = via;
  joined_at = now;
}

abbrev pub rejoined : ℕ → JoinedVia → Membership → Membership
rejoined now via m = record m {
  status = MembershipStatus.active;
  joined_via = via;
  joined_at = now;
}

abbrev pub is_active_one : Option (ℕ × Membership) → Bool
is_active_one none = false
is_active_one (some (id, m)) = is_active_member m

unfoldable pub drop_invite : Option (ℕ × CourseInvite) → Tx (Unit {0})
drop_invite none = pure tt
drop_invite (some (id, i)) = modify λ db. record db { invites = remove id db.invites }

module _ (now : ℕ) (fold : Folding) (course_id actor_user_id : ℕ) (email : String)
    (reason : Option String) where
  -- for an address without an account
  unfoldable pub invite : Tx Addition
  invite = do
    pending ← gets λ db. find_by (is_invite_of fold course_id email) db.invites
    raise_if (not (is_none pending)) (Error.http 409 "Pending invite already exists")
    id ← new_uuid
    modify λ db. record db {
      invites =
          put id
            (record { course_id = course_id; email = email; created_by_user_id = actor_user_id })
            db.invites;
    }
    record_audit actor_user_id "CourseInvite" id "CREATE_INVITE" none
        (some (
          Fields.field "course_id" (Json.num course_id)
            (Fields.field "status" (Json.str "PENDING") Fields.end)))
        (reason_or reason "Invite created")
    pure (Addition.invited id)

  unfoldable pub enrol : ℕ → Option (ℕ × Membership) → Tx Addition
  enrol user_id none = do
    id ← new_uuid
    let m = new_membership now JoinedVia.manual course_id user_id
    put_membership id m
    record_audit actor_user_id "Membership" id "ADD_MEMBER" none (some (member_snapshot m))
        (reason_or reason "Member added")
    pure (Addition.added id)
  enrol user_id (some (id, m)) = do
    put_membership id (rejoined now JoinedVia.manual m)
    record_audit actor_user_id "Membership" id "REACTIVATE_MEMBER" (some (member_snapshot m))
        (some (member_snapshot (rejoined now JoinedVia.manual m)))
        (reason_or reason "Member reactivated")
    pure (Addition.reactivated id)

  -- for the account with the address
  unfoldable pub add_user : Option (ℕ × User) → Tx Addition
  add_user none = invite
  add_user (some (user_id, user)) = do
    raise_if (not (has_role is_student user.roles))
        (Error.http 409 "User does not have STUDENT role")
    membership ← gets λ db. find_by (is_membership_of course_id user_id) db.memberships
    raise_if (is_active_one membership) (Error.http 409 "User is already an active member")
    stale ← gets λ db. find_by (is_invite_of fold course_id email) db.invites
    drop_invite stale
    enrol user_id membership

abbrev pub is_user_of : Folding → String → User → Bool
is_user_of fold email u = str_eq (fold.sql_lower u.email) email

unfoldable pub add_member : ℕ → Folding → ℕ → ℕ → String → Option String → Tx Addition
add_member now fold course_id actor_user_id email reason = do
  lock_active_course course_id none
  let address = fold.lower (strip email)
  user ← gets λ db. find_by (is_user_of fold address) db.users
  add_user now fold course_id actor_user_id address (given_reason reason) user

abbrev pub removed_member : Membership → Membership
removed_member m = record m { status = MembershipStatus.removed }

unfoldable pub remove_member : ℕ → ℕ → ℕ → Option String → Tx (Unit {0})
remove_member course_id user_id actor_user_id reason = do
  lock_active_course course_id none
  (id, m) ←
      lookup (λ db. find_by (is_membership_of course_id user_id) db.memberships)
        (Error.http 404 "Student membership not found")
  raise_if (not (is_active_member m)) (Error.http 409 "Student membership is already removed")
  put_membership id (removed_member m)
  record_audit actor_user_id "Membership" id "REMOVE_MEMBER" (some (member_snapshot m))
      (some (member_snapshot (removed_member m))) (reason_or reason "Member removed")
