-- ===== src/Courses/Records.antt =====
-- Courses and their announcements, backend/app/services/course.py.
use doc_grading.Prelude.{
  ℕ, ◌+◌, String, Bool, not, ◌&&◌, ◌||◌, Option, none, some, find, find_by, put, remove, is_none,
  str_eq, ◌==◌, if◌then◌else◌,
}
use doc_grading.Models.Enums.{CourseStatus}
use doc_grading.Models.Json.{Json, Fields}
use doc_grading.Models.Rows.{
  Course, Announcement, Assignment, CourseInvite, CourseJoinCode, Membership,
}
use doc_grading.Models.Db.{Db}
use doc_grading.Models.Tx.{Tx, Error, pure, raise_if, gets, lookup, modify, new_uuid, ◌>>=◌, ◌>>◌}
use doc_grading.Audit.{record_audit}
use doc_grading.Jobs.Defs.{status_field}
use doc_grading.Courses.{lock_active_course, put_course}

abbrev pub new_course : String → String → String → ℕ → Course
new_course code name term owner_teacher_id = record {
  code = code;
  name = name;
  term = term;
  owner_teacher_id = owner_teacher_id;
  status = CourseStatus.active;
  revision = 1;
}

-- the unique constraint on the codes of courses
abbrev pub has_course_code : String → Db → Bool
has_course_code code db = not (is_none (find_by (λ c. str_eq c.code code) db.courses))

unfoldable pub create_course : String → String → String → ℕ → ℕ → Tx ℕ
create_course code name term owner_teacher_id actor_user_id = do
  id ← new_uuid
  taken ← gets (has_course_code code)
  raise_if taken Error.sqlalchemy_error
  put_course id (new_course code name term owner_teacher_id)
  record_audit actor_user_id "Course" id "CREATE" none
      (some (
        Fields.field "code" (Json.str code) (
          Fields.field "name" (Json.str name) (
            Fields.field "term" (Json.str term)
              (Fields.field "owner_teacher_id" (Json.num owner_teacher_id) Fields.end)))))
      "Course created"
  pure id

-- the new text, if there is one and it is another
abbrev pub other_text : Option String → String → Option String
other_text none old = none
other_text (some new) old = if str_eq new old then none else some new

abbrev pub text_or : Option String → String → String
text_or none old = old
text_or (some new) old = new

abbrev pub old_field : String → Option String → String → Fields → Fields
old_field key none old rest = rest
old_field key (some new) old rest = Fields.field key (Json.str old) rest

abbrev pub new_field : String → Option String → Fields → Fields
new_field key none rest = rest
new_field key (some new) rest = Fields.field key (Json.str new) rest

-- the course after the texts that are other ones
abbrev pub renamed_course : Option String → Option String → Course → Course
renamed_course name term course = record course {
  name = text_or name course.name;
  term = text_or term course.term;
  revision = course.revision + 1;
}

unfoldable pub store_course : ℕ → ℕ → Option String → Option String → Course → Tx (Unit {0})
store_course id actor_user_id name term course =
    if is_none name && is_none term then pure tt else (do
      put_course id (renamed_course name term course)
      record_audit actor_user_id "Course" id "UPDATE"
          (some (old_field "name" name course.name (old_field "term" term course.term Fields.end)))
          (some (new_field "name" name (new_field "term" term Fields.end))) "Course updated")

unfoldable pub update_course : ℕ → ℕ → ℕ → Option String → Option String → Tx (Unit {0})
update_course id actor_user_id expected_revision name term = do
  course ← lock_active_course id (some expected_revision)
  store_course id actor_user_id (other_text name course.name) (other_text term course.term) course

-- announcements, assignments, invites, join codes and memberships
abbrev pub has_dependencies : ℕ → Db → Bool
has_dependencies id db =
    not (is_none (find_by (λ (x : Announcement). x.course_id == id) db.announcements))
    || not (is_none (find_by (λ (x : Assignment). x.course_id == id) db.assignments))
    || not (is_none (find_by (λ (x : CourseInvite). x.course_id == id) db.invites))
    || not (is_none (find_by (λ (x : CourseJoinCode). x.course_id == id) db.join_codes))
    || not (is_none (find_by (λ (x : Membership). x.course_id == id) db.memberships))

unfoldable pub delete_course : ℕ → ℕ → ℕ → Tx (Unit {0})
delete_course id actor_user_id expected_revision = do
  course ← lock_active_course id (some expected_revision)
  used ← gets (has_dependencies id)
  raise_if used (Error.http 409 "Course has dependent records; archive it instead")
  record_audit actor_user_id "Course" id "DELETE"
      (some (
        Fields.field "code" (Json.str course.code) (
          Fields.field "name" (Json.str course.name)
            (Fields.field "term" (Json.str course.term) Fields.end))))
      none "Course deleted"
  modify λ db. record db { courses = remove id db.courses }

abbrev pub archived_course : Course → Course
archived_course course = record course {
  status = CourseStatus.archived;
  revision = course.revision + 1;
}

unfoldable pub archive_course : ℕ → ℕ → ℕ → Tx (Unit {0})
archive_course id actor_user_id expected_revision = do
  course ← lock_active_course id (some expected_revision)
  put_course id (archived_course course)
  record_audit actor_user_id "Course" id "ARCHIVE" (some (status_field "ACTIVE"))
      (some (status_field "ARCHIVED")) "Course archived"

unfoldable pub put_announcement : ℕ → Announcement → Tx (Unit {0})
put_announcement id a = modify λ db. record db { announcements = put id a db.announcements }

abbrev pub about_course : Announcement → Fields
about_course a =
    Fields.field "course_id" (Json.num a.course_id)
      (Fields.field "title" (Json.str a.title) Fields.end)

abbrev pub title_and_body : Announcement → Fields
title_and_body a =
    Fields.field "title" (Json.str a.title) (Fields.field "body" (Json.str a.body) Fields.end)

abbrev pub new_announcement : ℕ → ℕ → String → String → Announcement
new_announcement course_id created_by_user_id title body = record {
  course_id = course_id;
  created_by_user_id = created_by_user_id;
  title = title;
  body = body;
}

unfoldable pub create_announcement : ℕ → ℕ → String → String → Tx ℕ
create_announcement course_id created_by_user_id title body = do
  lock_active_course course_id none
  id ← new_uuid
  let a = new_announcement course_id created_by_user_id title body
  put_announcement id a
  record_audit created_by_user_id "Announcement" id "CREATE" none (some (about_course a))
      "Course announcement created"
  pure id

abbrev pub announcement_in : ℕ → Option Announcement → Option Announcement
announcement_in course_id none = none
announcement_in course_id (some a) = if a.course_id == course_id then some a else none

unfoldable pub get_announcement : ℕ → ℕ → Tx Announcement
get_announcement course_id id =
    lookup (λ db. announcement_in course_id (find id db.announcements))
      (Error.http 404 "Announcement not found")

abbrev pub rewritten : String → String → Announcement → Announcement
rewritten title body a = record a { title = title; body = body }

-- `a` is the row that `get_announcement` has read.
unfoldable pub update_announcement : ℕ → Announcement → ℕ → String → String → Tx (Unit {0})
update_announcement id a actor_user_id title body = do
  lock_active_course a.course_id none
  put_announcement id (rewritten title body a)
  record_audit actor_user_id "Announcement" id "UPDATE" (some (title_and_body a))
      (some (title_and_body (rewritten title body a))) "Course announcement updated"

unfoldable pub delete_announcement : ℕ → Announcement → ℕ → Tx (Unit {0})
delete_announcement id a actor_user_id = do
  lock_active_course a.course_id none
  record_audit actor_user_id "Announcement" id "DELETE" (some (about_course a)) none
      "Course announcement deleted"
  modify λ db. record db { announcements = remove id db.announcements }
