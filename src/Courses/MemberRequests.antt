-- ===== src/Courses/MemberRequests.antt =====
-- What is asked of the members of courses: backend/app/services/course.py and course_join.py.
use doc_grading.Prelude.{ℕ, String, Bool, Option, HasUniqueKeys}
use doc_grading.Models.Rows.{User}
use doc_grading.Models.Db.{Db}
use doc_grading.Models.Tx.{Outcome, returned, raised, committed, persisted}
use doc_grading.Models.Ensures.{Ensures}
use doc_grading.Models.Ends.{Ends, Ensures-Ends}
use doc_grading.Courses.{Folding}
use doc_grading.Courses.Members.{add_member, remove_member}
use doc_grading.Courses.Joining.{JoinSettings, join_course}
use doc_grading.Courses.Roster.{IsRoster}
use doc_grading.Courses.OneEach.{add_member-Kept, remove_member-Kept, join_course-Kept}

-- what is asked of the members of a course
pub data MemberRequest : Type 0 where
  add : Folding → ℕ → ℕ → String → Option String → MemberRequest
  remove_one : ℕ → ℕ → ℕ → Option String → MemberRequest
  join :
      JoinSettings
      → Folding
      → (ℕ → String)
      → (ℕ → Bool)
      → String
      → ℕ
      → User
      → Option String
      → MemberRequest

pub serve_member : ℕ → MemberRequest → Db → Db
serve_member now (add fold c actor email reason) db =
    persisted db (add_member now fold c actor email reason db)
serve_member now (remove_one c user_id actor reason) db =
    persisted db (remove_member c user_id actor reason db)
serve_member now (join s fold uuid_text locked code user_id user client) db =
    persisted db (join_course now s fold uuid_text locked code user_id user client db)

persisted-IsRoster :
    {A : Type 0} (o : Outcome A) (db : Db)
    → IsRoster db
    → Ends (λ _ db'. IsRoster db') (λ _ db'. IsRoster db') o
    → IsRoster (persisted db o)
persisted-IsRoster (returned a db') db r k = k
persisted-IsRoster (raised e) db r k = r
persisted-IsRoster (committed e db') db r k = k

returned-IsRoster :
    {A : Type 0} (o : Outcome A) (db : Db)
    → IsRoster db
    → Ensures (λ _ db'. IsRoster db') o
    → IsRoster (persisted db o)
returned-IsRoster o db r k = persisted-IsRoster o db r (Ensures-Ends (λ _ db'. IsRoster db') _ o k)

-- If every student has one membership of each course at most, and keys are unique, then so it is after
-- an addition, a removal or a joining, refused ones included.
pub serve_member-IsRoster :
    (now : ℕ) (q : MemberRequest) (db : Db)
    → IsRoster db
    → HasUniqueKeys db.join_codes
    → IsRoster (serve_member now q db)
unfolding serve_member
serve_member-IsRoster now (add fold c actor email reason) db r u =
    returned-IsRoster (add_member now fold c actor email reason db) db r
      (add_member-Kept now fold c actor email reason db r)
serve_member-IsRoster now (remove_one c user_id actor reason) db r u =
    returned-IsRoster (remove_member c user_id actor reason db) db r
      (remove_member-Kept c user_id actor reason db r)
serve_member-IsRoster now (join s fold uuid_text locked code user_id user client) db r u =
    persisted-IsRoster (join_course now s fold uuid_text locked code user_id user client db) db r
      (join_course-Kept now s fold uuid_text locked code user_id user client db r u)
