-- ===== src/Appeals/Answers.antt =====
-- An open request is answered once, by those who may.
use doc_grading.Prelude.{
  ℕ, ◌≡◌, ◌≢◌, refl, ◌∙◌, String, true, false, Option, none, some, find, put, find-put_self,
  find-put_ne, arith, ap, Bool-cases, Option-cases, ==_iff, inl, inr, sym, subst,
}
use doc_grading.Models.Enums.{ReviewRequestStatus, has_role, is_admin, is_teacher}
use doc_grading.Models.Json.{Fields}
use doc_grading.Models.Rows.{User, ReviewRequest, Course}
use doc_grading.Models.Db.{Db}
use doc_grading.Models.Tx.{tx, Error, pure, raise, lookup, ◌>>=◌, ◌>>◌}
use doc_grading.Models.Ensures.{Ensures, Ensures-mono}
use doc_grading.Models.Hoare.{Ensures-guard, Ensures-lookup, Ensures-reads}
use doc_grading.Models.Reads.{Ensures-seq}
use doc_grading.Models.Frames.{Frames, frame_rules}
use doc_grading.Audit.{record_audit}
use doc_grading.Notifications.{add_student_course_notification}
use doc_grading.Appeals.{
  respond_review_request, request_with_course, joined, answers_for, answered, is_open, put_request,
  is_archived_course, is_archived_assignment, of_owner, Context, notice_of,
}
use doc_grading.Appeals.Frame.{SameRequests, same-IsOrder, record_audit-Same, notice-Same}

-- who may answer a request of the course: an administrator or the teacher who owns it
pub data MayAnswer (user_id : ℕ) (user : User) (course : Course) : Type 0 where
  as_admin : has_role is_admin user.roles ≡ true → MayAnswer user_id user course
  as_owner :
      has_role is_teacher user.roles ≡ true
      → course.owner_teacher_id ≡ user_id
      → MayAnswer user_id user course

-- what a row of the join says, whoever it was restricted to
joined_lem :
    (owner : Option ℕ) (db : Db) (o : Option ReviewRequest) (c : Context)
    → joined owner db o ≡ some c
    → (joined none db o ≡ some c) × (of_owner owner c.course ≡ true) × (o ≡ some c.request)
joined_lem owner db none c e = ground arith
joined_lem owner db (some r) c e = elim (Option-cases (find r.submission_id db.submissions)) [
  | inl f ↦ ground arith
  | inr (s, f) ↦ elim (Option-cases (find s.assignment_id db.assignments)) [
    | inl g ↦ ground arith
    | inr (a, g) ↦ elim (Option-cases (find a.course_id db.courses)) [
      | inl h ↦ ground arith
      | inr (course, h) ↦ ground arith
    ]
  ]
]

-- the restriction that the user's role puts on the join
data Restricts (user_id : ℕ) (user : User) (owner : Option ℕ) : Type 0 where
  to_all : owner ≡ none → has_role is_admin user.roles ≡ true → Restricts user_id user owner
  to_own :
      owner ≡ some user_id → has_role is_teacher user.roles ≡ true → Restricts user_id user owner

answers_for_lem :
    (user_id : ℕ) (user : User) (db : Db)
    → Ensures (λ owner db'. (db' ≡ db) × Restricts user_id user owner) (answers_for user_id user db)
unfolding answers_for pure raise
answers_for_lem user_id user db = elim (Bool-cases (has_role is_admin user.roles)) [
  | inl a ↦ rw a (refl, Restricts.to_all refl a)
  | inr a ↦ rw a (elim (Bool-cases (has_role is_teacher user.roles)) [
    | inl t ↦ rw t (refl, Restricts.to_own refl t)
    | inr t ↦ rw t tt
  ])
]

restricted-MayAnswer :
    (user_id : ℕ) (user : User) (owner : Option ℕ) (course : Course)
    → Restricts user_id user owner
    → of_owner owner course ≡ true
    → MayAnswer user_id user course
restricted-MayAnswer user_id user owner course (Restricts.to_all e a) h = MayAnswer.as_admin a
restricted-MayAnswer user_id user owner course (Restricts.to_own e t) h =
    MayAnswer.as_owner t
      ((==_iff course.owner_teacher_id user_id).0 (subst (λ o. of_owner o course ≡ true) e h))

module _ (now id : ℕ) (status : ReviewRequestStatus) (response : String) (user_id : ℕ) (user : User)
    (db : Db) where
  -- An open request of an active course and assignment has been answered by someone who may.
  pub record IsAnswer (db' : Db) : Type 0 where
    pub context : Context
    pub stored : find id db.review_requests ≡ some context.request
    pub of_course : request_with_course id none db ≡ some context
    pub permitted : MayAnswer user_id user context.course
    pub active_course : is_archived_course context.course.status ≡ false
    pub active_assignment : is_archived_assignment context.assignment.status ≡ false
    pub was_open : is_open context.request.status ≡ true
    pub is_final : is_open status ≡ false
    pub row : ReviewRequest
    pub answer : find id db'.review_requests ≡ some row
    pub new_status : row.status ≡ status
    pub text : row.response ≡ some response
    pub author : row.responded_by_user_id ≡ some user_id
    pub time : row.responded_at ≡ some now
    pub same_question :
        (row.published_result_id ≡ context.request.published_result_id)
        × (row.student_id ≡ context.request.student_id)
        × (row.criterion_version_id ≡ context.request.criterion_version_id)
        × (row.reason ≡ context.request.reason)
    pub others_stay : (k : ℕ) → k ≢ id → find k db'.review_requests ≡ find k db.review_requests

  put_request_lem :
      (r : ReviewRequest)
      → Ensures (λ _ db'. db'.review_requests ≡ put id r db.review_requests) (put_request id r db)
  unfolding put_request tx
  put_request_lem r = refl

  tail :
      (owner : Option ℕ) (student_id course_id actor : ℕ) (type action : String)
      (before after : Option Fields) (note : Fields) (e : Error)
      → Frames SameRequests (
          add_student_course_notification student_id course_id (notice_of status) note
          >> (record_audit actor type id action before after response
              >> (lookup (λ d. request_with_course id owner d) e >>= λ c. pure c.request)))
  tail owner student_id course_id actor type action before after note e =
      search (same-IsOrder, frame_rules, notice-Same, record_audit-Same) depth 8

  kept-IsAnswer :
      (c : Context) (r : ReviewRequest) (db2 : Db)
      → find id db.review_requests ≡ some r
      → r ≡ c.request
      → request_with_course id none db ≡ some c
      → MayAnswer user_id user c.course
      → is_archived_course c.course.status ≡ false
      → is_archived_assignment c.assignment.status ≡ false
      → is_open r.status ≡ true
      → is_open status ≡ false
      → db2.review_requests ≡ put id (answered now status response user_id r) db.review_requests
      → IsAnswer db2
  kept-IsAnswer c r db2 f q e m ac aa op fin k = record {
    context = c;
    stored = f ∙ ap some q;
    of_course = e;
    permitted = m;
    active_course = ac;
    active_assignment = aa;
    was_open = subst (λ x. is_open x.status ≡ true) q op;
    is_final = fin;
    row = answered now status response user_id c.request;
    new_status = refl;
    text = refl;
    author = refl;
    time = refl;
    same_question = (refl, refl, refl, refl);
    answer = rw k (
        find-put_self id _ db.review_requests
        ∙ ap (λ x. some (answered now status response user_id x)) q);
    others_stay = λ j n. rw k (find-put_ne id j _ db.review_requests n);
  }

  joined_facts :
      (owner : Option ℕ) (c : Context)
      → request_with_course id owner db ≡ some c
      → (request_with_course id none db ≡ some c)
        × (of_owner owner c.course ≡ true)
        × (find id db.review_requests ≡ some c.request)
  unfolding request_with_course
  joined_facts owner c e = joined_lem owner db (find id db.review_requests) c e

  some-injective : (r r' : ReviewRequest) → some r ≡ some r' → r ≡ r'
  some-injective r r' e = ground arith

  -- If a response returns, then its status is not OPEN; the request was open, in a course and
  -- an assignment that are not archived; the user is an administrator or the teacher who owns the
  -- course; the request is stored with this status and text, this author and this time, and is
  -- about the same as before; and no other request changes.
  pub respond_review_request-IsAnswer :
      Ensures
        (λ _ db'. IsAnswer db')
        (respond_review_request now id status response user_id user db)
  unfolding respond_review_request
  respond_review_request-IsAnswer =
      Ensures-reads (Restricts user_id user) Q _ _ db (answers_for_lem user_id user db) (λ owner h.
        Ensures-lookup Q _ _ _ db (λ c e. Ensures-guard Q _ _ _ db (λ ac.
          Ensures-guard Q _ _ _ db (λ aa. Ensures-lookup Q _ _ _ db (λ r f.
            Ensures-guard Q _ _ _ db (λ fin. Ensures-guard Q _ _ _ db (λ op.
              Ensures-seq (λ _ d. d.review_requests ≡ put id _ db.review_requests) Q _ _ db
                (put_request_lem _)
                (λ _ d w.
                  Ensures-mono _ Q _
                    (λ _ d' v.
                      kept-IsAnswer c r d' f
                        (some-injective r c.request (sym f ∙ (joined_facts owner c e).2))
                        (joined_facts owner c e).0
                        (restricted-MayAnswer user_id user owner c.course h
                          (joined_facts owner c e).1)
                        ac aa (ground arith) fin (v ∙ w))
                    ((tail owner _ _ _ _ _ _ _ _ _).at d)))))))))
    where
      Q : ReviewRequest → Db → Type 0
      Q _ db' = IsAnswer db'
