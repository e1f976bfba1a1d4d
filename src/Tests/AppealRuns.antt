-- ===== src/Tests/AppealRuns.antt =====
-- Requests to review a published result.
use doc_grading.Prelude.{
  ℕ, ◌≡◌, refl, true, Bool, false, find_by, put, none, some, List, [], ◌∷◌, find, arith,
}
use doc_grading.Models.Enums.{UserRole, DocumentStatus, ReviewRequestStatus}
use doc_grading.Models.Json.{Json, Fields}
use doc_grading.Models.Rows.{User, PublishedResultVersion}
use doc_grading.Models.Db.{Db}
use doc_grading.Models.Tx.{Outcome, returned, tx}
use doc_grading.Models.Ensures.{Ensures}
use doc_grading.Appeals.{respond_review_request, put_request, request_with_course}
use doc_grading.Appeals.Answers.{IsAnswer, respond_review_request-IsAnswer}
use doc_grading.Appeals.Opening.{NewRequest, create_review_request, request_context, target}
use doc_grading.Appeals.Requests.{IsRequest, create_review_request-IsRequest}
use doc_grading.Appeals.OneOpen.{HasOneOpen, Appeal, serve, serve_appeals, serve_appeals-HasOneOpen}
use doc_grading.Audit.{record_audit}
use doc_grading.Notifications.{add_notification, reference_payload}
use doc_grading.Review.Publish.{latest_version, latest_result}
use doc_grading.Tests.Data.{school, document, teacher}

abbrev is_returned {ℓ} : {A : Type ℓ} → Outcome A → Bool
is_returned (returned a db) = true
is_returned _ = false

abbrev student : User
student = record teacher { email = "hs@example.org"; roles = UserRole.student ∷ [] }

abbrev result : PublishedResultVersion
result = record {
  document_version_id = 8;
  version_number = 1;
  approved_by_user_id = 1;
  published_by_user_id = 1;
  approved_at = 10;
  published_at = 20;
  snapshot = Json.obj Fields.end;
}

abbrev published_course : Db
published_course = record (school (document DocumentStatus.published)) {
  users = (1, teacher) ∷ (2, student) ∷ [];
  published_results = (12, result) ∷ [];
}

abbrev appeal : NewRequest
appeal = record {
  submission_id = 7;
  criterion_id = some 11;
  finding_id = none;
  reason = "Please look again";
}

abbrev opened_course : Db
opened_course = serve 30 2 student (Appeal.create 12 appeal) published_course

create_review_request-IsRequest_example :
    Ensures
      (λ _ db'. IsRequest 30 12 appeal 2 student published_course db')
      (create_review_request 30 12 appeal 2 student published_course)
create_review_request-IsRequest_example =
    create_review_request-IsRequest 30 12 appeal 2 student published_course

respond_review_request-IsAnswer_example :
    Ensures
      (λ _ db'. IsAnswer 40 100 ReviewRequestStatus.resolved "Done" 1 teacher opened_course db')
      (respond_review_request 40 100 ReviewRequestStatus.resolved "Done" 1 teacher opened_course)
respond_review_request-IsAnswer_example =
    respond_review_request-IsAnswer 40 100 ReviewRequestStatus.resolved "Done" 1 teacher
      opened_course

no_requests : HasOneOpen published_course.review_requests
unfolding find
no_requests j k r s f g o d = ground arith

abbrev exchange : List (ℕ × ℕ × User × Appeal)
exchange =
    (30, 2, student, Appeal.create 12 appeal)
    ∷ (31, 2, student, Appeal.create 12 appeal)
    ∷ (40, 1, teacher, Appeal.respond 100 ReviewRequestStatus.resolved "Done")
    ∷ []

serve_appeals-HasOneOpen_example :
    HasOneOpen (serve_appeals exchange published_course).review_requests
serve_appeals-HasOneOpen_example = serve_appeals-HasOneOpen exchange published_course no_requests

appeal_is_opened :
    is_returned (create_review_request 30 12 appeal 2 student published_course) ≡ true
unfolding find find_by create_review_request request_context target latest_version latest_result
    put_request add_notification reference_payload record_audit request_with_course put tx
appeal_is_opened = refl
