-- ===== src/Appeals/Requests.antt =====
-- What a request that has been opened is about.
use doc_grading.Prelude.{
  ℕ, ◌+◌, ◌≤◌, ◌≡◌, ◌≢◌, refl, ◌∙◌, true, false, not, String, Option, none, some, find, find_by,
  put, find-put_self, find-put_ne, is_none, arith, eq_opt, Option-cases, Bool-cases, inl, inr, ◌==◌,
  ==_iff, subst,
}
use doc_grading.Models.Json.{Fields}
use doc_grading.Models.Enums.{NotificationType, ReviewRequestStatus}
use doc_grading.Models.Rows.{User, ReviewRequest, Submission}
use doc_grading.Models.Db.{Db}
use doc_grading.Models.Tx.{tx, Error, pure, gets, lookup, ◌>>=◌, ◌>>◌}
use doc_grading.Models.Ensures.{Ensures, Ensures-mono}
use doc_grading.Models.Hoare.{Ensures-guard, Ensures-lookup, Ensures-gets, Ensures-uuid}
use doc_grading.Models.Reads.{
  Reads, Reads-bind, Reads-then, raise_if-Reads, Ensures-bind, Ensures-seq,
}
use doc_grading.Models.Frames.{Frames, frame_rules}
use doc_grading.Review.Access.{lookup-Reads, or_raise-Reads, pure-Reads}
use doc_grading.Review.Publish.{is_published, latest_document_id, latest_result_id}
use doc_grading.Audit.{record_audit}
use doc_grading.Notifications.{add_notification}
use doc_grading.Appeals.{
  request_with_course, put_request, is_archived_course, is_archived_assignment,
}
use doc_grading.Appeals.Frame.{SameRequests, same-IsOrder, record_audit-Same, add_notification-Same}
use doc_grading.Appeals.Opening.{
  create_review_request, NewRequest, ResultContext, request_context, is_pure_student, is_duplicate,
  new_request, target, window, is_out_of_window,
}

gets-Reads : {A : Type 0} (f : Db → A) (db : Db) → Reads db (gets f db)
unfolding gets
gets-Reads f db = Reads.read (f db) refl

target-Reads :
    (criterion_id finding_id : Option ℕ) (c : ResultContext) (db : Db)
    → Reads db (target criterion_id finding_id c db)
unfolding target
target-Reads (some criterion_id) finding_id c db =
    Reads-bind _ _ (lookup-Reads _ _ db) (λ row. pure-Reads _ db)
target-Reads none finding_id c db = Reads-bind _ _ (or_raise-Reads _ _ db) (λ id.
    Reads-bind _ _ (lookup-Reads _ _ db) (λ cv.
      Reads-bind _ _ (gets-Reads _ db)
        (λ b. Reads-then _ _ (raise_if-Reads _ _ db) (pure-Reads _ db))))

module _ (result_id submission_id user_id : ℕ) (db : Db) where
  -- The rows of a context: a stored result of a document of the submission, which is the user's own.
  pub record IsContext (c : ResultContext) : Type 0 where
    pub of_result : find result_id db.published_results ≡ some c.result
    pub of_document : find c.result.document_version_id db.documents ≡ some c.version
    pub of_submission : c.version.submission_id ≡ submission_id
    pub submission : Submission
    pub stored : find submission_id db.submissions ≡ some submission
    pub by_student : submission.student_id ≡ user_id
    pub of_assignment : find submission.assignment_id db.assignments ≡ some c.assignment
    pub of_course : find c.assignment.course_id db.courses ≡ some c.course

  request_context-IsContext :
      (c : ResultContext)
      → request_context result_id submission_id user_id db ≡ some c
      → IsContext c
  unfolding request_context
  request_context-IsContext c e = elim (Option-cases (find result_id db.published_results)) [
    | inl f ↦ ground arith
    | inr (r, f) ↦ elim (Option-cases (find r.document_version_id db.documents)) [
      | inl g ↦ ground arith
      | inr (v, g) ↦ elim (Bool-cases (v.submission_id == submission_id)) [
        | inl h ↦ elim (Option-cases (find v.submission_id db.submissions)) [
          | inl i ↦ ground arith
          | inr (s, i) ↦ elim (Option-cases (find s.assignment_id db.assignments)) [
            | inl j ↦ ground arith
            | inr (a, j) ↦ elim (Option-cases (find a.course_id db.courses)) [
              | inl k ↦ ground arith
              | inr (course, k) ↦ elim (Bool-cases (s.student_id == user_id)) [
                | inl l ↦
                    let own : v.submission_id ≡ submission_id =
                      (==_iff v.submission_id submission_id).0 h in
                    let same : record { result = r; version = v; assignment = a; course = course }
                        ≡ c =
                      ground arith in
                    subst IsContext same (record {
                      of_result = f;
                      of_document = g;
                      of_submission = own;
                      submission = s;
                      stored = subst (λ x. find x db.submissions ≡ some s) own i;
                      by_student = (==_iff s.student_id user_id).0 l;
                      of_assignment = j;
                      of_course = k;
                    })
                | inr l ↦ ground arith
              ]
            ]
          ]
        ]
        | inr h ↦ ground arith
      ]
    ]
  ]

module _ (now result_id : ℕ) (payload : NewRequest) (user_id : ℕ) (user : User) (db : Db) where
  -- A student has opened a request on the latest result of the latest published document, and had
  -- no open request on the same criterion of it.
  pub record IsRequest (db' : Db) : Type 0 where
    pub context : ResultContext
    pub criterion : ℕ
    pub finding : Option ℕ
    pub student : is_pure_student user.roles ≡ true
    pub own : IsContext result_id payload.submission_id user_id db context
    pub published : is_published context.version.status ≡ true
    pub active_course : is_archived_course context.course.status ≡ false
    pub active_assignment : is_archived_assignment context.assignment.status ≡ false
    pub latest_document :
        eq_opt
          (latest_document_id payload.submission_id db)
          (some context.result.document_version_id)
        ≡ true
    pub latest_result :
        eq_opt (latest_result_id context.result.document_version_id db) (some result_id) ≡ true
    pub in_time : (context.result.published_at ≤ now) × (now ≤ context.result.published_at + window)
    pub no_other : find_by (is_duplicate result_id user_id criterion) db.review_requests ≡ none
    pub row : ReviewRequest
    pub request : find db.next_uuid db'.review_requests ≡ some row
    pub opens : row.status ≡ ReviewRequestStatus.open_
    pub unanswered : (row.response ≡ none) × (row.responded_at ≡ none)
    pub asked_by : row.student_id ≡ user_id
    pub about :
        (row.published_result_id ≡ result_id)
        × (row.submission_id ≡ payload.submission_id)
        × (row.criterion_version_id ≡ criterion)
        × (row.finding_id ≡ finding)
        × (row.reason ≡ payload.reason)
    pub others_stay :
        (k : ℕ) → k ≢ db.next_uuid → find k db'.review_requests ≡ find k db.review_requests

  put_request-puts :
      (id : ℕ) (r : ReviewRequest) (d : Db)
      → Ensures (λ _ d'. d'.review_requests ≡ put id r d.review_requests) (put_request id r d)
  unfolding put_request tx
  put_request-puts id r d = refl

  rest-Same :
      (id recipient : ℕ) (type : NotificationType) (name action : String) (note : Fields)
      (before after : Option Fields) (e : Error)
      → Frames {A = ℕ × ReviewRequest} SameRequests (
          add_notification recipient type note
          >> (record_audit user_id name id action before after payload.reason
              >> (lookup (λ d. request_with_course id none d) e >>= λ stored.
                  pure (id, stored.request))))
  rest-Same id recipient type name action note before after e =
      search (same-IsOrder, frame_rules, add_notification-Same, record_audit-Same) depth 8

  no-row : {A : Type 0} (o : Option A) → not (is_none o) ≡ false → o ≡ none
  no-row none e = refl
  no-row (some a) e = ground arith

  in_window :
      (c : ResultContext)
      → is_out_of_window now c.result.published_at ≡ false
      → (c.result.published_at ≤ now) × (now ≤ c.result.published_at + window)
  in_window c w = (ground arith, ground arith)

  created :
      (c : ResultContext) (criterion : ℕ) (finding : Option ℕ)
      → is_pure_student user.roles ≡ true
      → request_context result_id payload.submission_id user_id db ≡ some c
      → is_published c.version.status ≡ true
      → is_archived_course c.course.status ≡ false
      → is_archived_assignment c.assignment.status ≡ false
      → eq_opt (latest_document_id payload.submission_id db) (some c.result.document_version_id)
        ≡ true
      → eq_opt (latest_result_id c.result.document_version_id db) (some result_id) ≡ true
      → (c.result.published_at ≤ now) × (now ≤ c.result.published_at + window)
      → find_by (is_duplicate result_id user_id criterion) db.review_requests ≡ none
      → (db' : Db)
      → db'.review_requests
        ≡ put db.next_uuid
            (new_request result_id user_id criterion finding payload)
            db.review_requests
      → IsRequest db'
  created c criterion finding st own pb ac aa ld lr w alone db' e = record {
    context = c;
    criterion = criterion;
    finding = finding;
    student = st;
    own = request_context-IsContext result_id payload.submission_id user_id db c own;
    published = pb;
    active_course = ac;
    active_assignment = aa;
    latest_document = ld;
    latest_result = lr;
    in_time = w;
    no_other = alone;
    row = new_request result_id user_id criterion finding payload;
    opens = refl;
    unanswered = (refl, refl);
    asked_by = refl;
    about = (refl, refl, refl, refl, refl);
    request = rw e (find-put_self db.next_uuid _ db.review_requests);
    others_stay = λ k n. rw e (find-put_ne db.next_uuid k _ db.review_requests n);
  }

  after_checks :
      (r : ReviewRequest) (recipient : ℕ) (type : NotificationType) (name action : String)
      (note : Fields) (before after : Option Fields) (e : Error)
      → ((db' : Db) → db'.review_requests ≡ put db.next_uuid r db.review_requests → IsRequest db')
      → Ensures {A = ℕ × ReviewRequest}
          (λ _ db'. IsRequest db')
          ((put_request db.next_uuid r
              >> (add_notification recipient type note
                  >> (record_audit user_id name db.next_uuid action before after payload.reason
                      >> (lookup (λ d. request_with_course db.next_uuid none d) e >>= λ stored.
                          pure (db.next_uuid, stored.request)))))
            (record db { next_uuid = db.next_uuid + 1 }))
  after_checks r recipient type name action note before after e give =
      Ensures-seq (λ _ d. d.review_requests ≡ put db.next_uuid r db.review_requests) Q _ _ _
        (put_request-puts db.next_uuid r _)
        (λ _ d w.
          Ensures-mono _ Q _ (λ _ d' v. give d' (v ∙ w))
            ((rest-Same db.next_uuid recipient type name action note before after e).at d))
    where
      Q : ℕ × ReviewRequest → Db → Type 0
      Q _ db' = IsRequest db'

  -- If opening a request returns, then the user is a student only; the result is stored, of a document
  -- of a submission whose student is the user; the document is published and the latest one, the result is its latest, published at
  -- most seven days ago; neither the course nor the assignment is archived; the student had no open
  -- request on the same criterion of the result; and a request with the status OPEN, by this student
  -- about this result, criterion and reason, is stored under the next identifier, without an answer,
  -- and no other request changes.
  pub create_review_request-IsRequest :
      Ensures (λ _ db'. IsRequest db') (create_review_request now result_id payload user_id user db)
  unfolding create_review_request
  create_review_request-IsRequest = Ensures-guard Q _ _ _ db (λ st.
      Ensures-lookup Q _ _ _ db (λ c own. Ensures-gets Q _ _ db (
        Ensures-guard Q _ _ _ db (λ _. Ensures-guard Q _ _ _ db (λ pb.
          Ensures-guard Q _ _ _ db (λ ac. Ensures-guard Q _ _ _ db (λ aa. Ensures-gets Q _ _ db (
            Ensures-guard Q _ _ _ db (λ ld. Ensures-gets Q _ _ db (
              Ensures-guard Q _ _ _ db (λ lr. Ensures-guard Q _ _ _ db (λ w.
                Ensures-bind Q _ _ (target-Reads _ _ c db) (λ t _. Ensures-gets Q _ _ db (
                  Ensures-guard Q _ _ _ db (λ du. Ensures-uuid Q _ db (
                    after_checks _ _ _ _ _ _ _ _ _ (
                      created c t.0 t.1 (ground arith) own (ground arith) ac aa (ground arith)
                        (ground arith) (in_window c w) (no-row _ du))))))))))))))))))
    where
      Q : ℕ × ReviewRequest → Db → Type 0
      Q _ db' = IsRequest db'
