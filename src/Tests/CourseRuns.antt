-- ===== src/Tests/CourseRuns.antt =====
-- Join codes and members of a course.
use doc_grading.Prelude.{
  ℕ, ◌≡◌, refl, String, Bool, false, none, List, [], ◌∷◌, find, find_by, put, arith,
}
use doc_grading.Models.Enums.{UserRole, DocumentStatus}
use doc_grading.Models.Rows.{User}
use doc_grading.Models.Db.{Db}
use doc_grading.Models.Tx.{returned}
use doc_grading.Models.Ends.{Ends}
use doc_grading.Courses.{Folding}
use doc_grading.Courses.Codes.{create_code_row, new_code, has_code, normalize_join_code}
use doc_grading.Courses.Draws.{create_code_row-ends}
use doc_grading.Courses.OneCode.{IsCoded}
use doc_grading.Courses.CodeRequests.{CodeRequest, serve_codes, serve_codes-IsCoded}
use doc_grading.Courses.Joining.{JoinSettings, join_course}
use doc_grading.Courses.Untouched.{IsUntouched}
use doc_grading.Courses.Admission.{IsJoined, join_course-Ends}
use doc_grading.Courses.Roster.{IsRoster}
use doc_grading.Courses.MemberRequests.{MemberRequest, serve_member, serve_member-IsRoster}
use doc_grading.Tests.Data.{school, document, teacher}

abbrev start : Db
start = school (document DocumentStatus.queued)

abbrev draws : List String
draws = "ABCDEFGHJKMNPQRSTUVW" ∷ "BBCDEFGHJKMNPQRSTUVW" ∷ []

create_code_row-ends_example :
    (code : String) × (db' : Db) × (create_code_row 10 draws 3 900 start
      ≡ returned (start.next_uuid, new_code 10 3 code 900) db')
    × (db'.join_codes ≡ put start.next_uuid (new_code 10 3 code 900) start.join_codes)
    × (find_by (has_code code) start.join_codes ≡ none)
create_code_row-ends_example =
    create_code_row-ends 10 draws 3 900 start (refl, (refl, tt)) (omega arith)

abbrev lesson : List (ℕ × CodeRequest)
lesson =
    (10, CodeRequest.create draws 3 900 1)
    ∷ (20, CodeRequest.regenerate draws 3 900 1)
    ∷ (30, CodeRequest.revoke 3 1)
    ∷ []

start-IsCoded : IsCoded start
unfolding find
start-IsCoded = record {
  codes = record {
    unique = tt;
    one_current = λ j k a b f g r s e. ground arith;
    distinct = λ j k a b f g e. ground arith;
  };
  fresh = λ k n. refl;
}

serve_codes-IsCoded_example : IsCoded (serve_codes lesson start)
serve_codes-IsCoded_example = serve_codes-IsCoded lesson start start-IsCoded

abbrev with_code : Db
with_code = record start {
  join_codes = (20, new_code 10 3 "ABCDEFGHJKMNPQRSTUVW" 900) ∷ [];
  memberships = [];
}

abbrev fold : Folding
fold = record { lower = λ s. s; upper = λ s. s; sql_lower = λ s. s }

abbrev limits : JoinSettings
limits = record { max_requests = 10; window_seconds = 60; digest = λ s. s }

abbrev student : User
student = record teacher { roles = UserRole.student ∷ [] }

abbrev nobody : ℕ → Bool
nobody _ = false

join_course-Ends_example :
    Ends
      (λ r db'. IsJoined 20 2 (normalize_join_code fold "ABCDEFGHJKMNPQRSTUVW") with_code r db')
      (λ e db'. IsUntouched with_code db')
      (join_course 20 limits fold
        (λ n. "id")
        nobody
        "ABCDEFGHJKMNPQRSTUVW"
        2
        student
        none
        with_code)
unfolding find
join_course-Ends_example =
    join_course-Ends 20 limits fold (λ n. "id") nobody "ABCDEFGHJKMNPQRSTUVW" 2 student none
      with_code tt (refl, tt)

with_code-IsRoster : IsRoster with_code
unfolding find
with_code-IsRoster = record {
  unique = tt;
  one_each = λ j k a b f g c u. ground arith;
  fresh = λ k n. refl;
}

serve_member-IsRoster_example : IsRoster (
    serve_member 20
      (MemberRequest.join limits fold (λ n. "id") nobody "ABCDEFGHJKMNPQRSTUVW" 2 student none)
      with_code)
unfolding find
serve_member-IsRoster_example =
    serve_member-IsRoster 20
      (MemberRequest.join limits fold (λ n. "id") nobody "ABCDEFGHJKMNPQRSTUVW" 2 student none)
      with_code with_code-IsRoster (refl, tt)
