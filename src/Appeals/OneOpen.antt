-- ===== src/Appeals/OneOpen.antt =====
-- A student has at most one open request on a criterion of a result.
use doc_grading.Prelude.{
  ℕ, ◌≡◌, ◌≢◌, sym, ◌∙◌, true, false, none, some, List, [], ◌∷◌, find, find_by, arith, Bool,
  Bool-cases, inl, inr, ◌==◌, ==_iff, Table, String, subst, ap,
}
use doc_grading.Models.Enums.{ReviewRequestStatus}
use doc_grading.Models.Rows.{User, ReviewRequest}
use doc_grading.Models.Db.{Db}
use doc_grading.Models.Tx.{Outcome, returned, raised, committed, persisted}
use doc_grading.Models.Ensures.{Ensures, Ensures-mono}
use doc_grading.Appeals.{respond_review_request, is_open}
use doc_grading.Appeals.Answers.{IsAnswer, respond_review_request-IsAnswer}
use doc_grading.Appeals.Opening.{NewRequest, create_review_request, is_duplicate}
use doc_grading.Appeals.Requests.{IsRequest, create_review_request-IsRequest}

-- Two open requests of the same student on the same criterion of a result are the same row.
abbrev pub HasOneOpen : Table ReviewRequest → Type 0
HasOneOpen t =
    (j k : ℕ) (r s : ReviewRequest)
    → find j t ≡ some r
    → find k t ≡ some s
    → is_open s.status ≡ true
    → is_duplicate s.published_result_id s.student_id s.criterion_version_id r ≡ true
    → j ≡ k

none-fits :
    (p : ReviewRequest → Bool) (t : Table ReviewRequest) (k : ℕ) (s : ReviewRequest)
    → find_by p t ≡ none
    → find k t ≡ some s
    → p s ≡ false
unfolding find find_by
none-fits p [] k s e f = ground arith
none-fits p ((i, w) ∷ t) k s e f = elim (Bool-cases (p w)) [
  | inl h ↦ ground arith
  | inr h ↦ elim (Bool-cases (k == i)) [
    | inl q ↦ ground arith
    | inr q ↦ none-fits p t k s (ground arith) (ground arith)
  ]
]

same_test : (a b : ℕ) → a == b ≡ b == a
same_test a b = ground arith

swapped :
    (r s : ReviewRequest)
    → is_open s.status ≡ true
    → is_duplicate s.published_result_id s.student_id s.criterion_version_id r ≡ true
    → (is_open r.status ≡ true)
      × (is_duplicate r.published_result_id r.student_id r.criterion_version_id s ≡ true)
swapped r s o d = (
  ground arith,
  ground (
    arith,
    same_test s.published_result_id r.published_result_id,
    same_test s.student_id r.student_id,
    same_test s.criterion_version_id r.criterion_version_id,
  ),
)

some-lem : (r x : ReviewRequest) → some r ≡ some x → r ≡ x
some-lem r x e = ground arith

module _ (id : ℕ) (x : ReviewRequest) (t t' : Table ReviewRequest) (changed : find id t' ≡ some x)
    (others : (k : ℕ) → k ≢ id → find k t' ≡ find k t)
    (alone : is_open x.status ≡ true
      → (k : ℕ) (s : ReviewRequest) → find k t ≡ some s
      → is_duplicate x.published_result_id x.student_id x.criterion_version_id s ≡ false) where
  found-x : (j : ℕ) (r : ReviewRequest) → find j t' ≡ some r → j ≡ id → r ≡ x
  found-x j r f e = some-lem r x (sym f ∙ ap (λ q. find q t') e ∙ changed)

  clash :
      (i j k : ℕ) (s : ReviewRequest)
      → is_open x.status ≡ true
      → find i t ≡ some s
      → is_duplicate x.published_result_id x.student_id x.criterion_version_id s ≡ true
      → j ≡ k
  clash i j k s o f d = ground (arith, alone o i s f)

  before : (k : ℕ) (s : ReviewRequest) → (k == id) ≡ false → find k t' ≡ some s → find k t ≡ some s
  before k s b f = sym (others k (λ q. ground (arith, ==_iff k id))) ∙ f

  -- one row has changed, and has no open duplicate
  changed-HasOneOpen : HasOneOpen t → HasOneOpen t'
  changed-HasOneOpen one j k r s fj fk o d = elim (Bool-cases (j == id)) [
    | inl a ↦ elim (Bool-cases (k == id)) [
      | inl b ↦ (==_iff j id).0 a ∙ sym ((==_iff k id).0 b)
      | inr b ↦
          let q = found-x j r fj ((==_iff j id).0 a) in
          let u = swapped r s o d in
          clash k j k s (subst (λ y. is_open y.status ≡ true) q u.0) (before k s b fk) (
            subst
              (λ y. is_duplicate y.published_result_id y.student_id y.criterion_version_id s ≡ true)
              q u.1)
    ]
    | inr a ↦ elim (Bool-cases (k == id)) [
      | inl b ↦
          let q = found-x k s fk ((==_iff k id).0 b) in
          clash j j k r (subst (λ y. is_open y.status ≡ true) q o) (before j r a fj) (
            subst
              (λ y. is_duplicate y.published_result_id y.student_id y.criterion_version_id r ≡ true)
              q d)
      | inr b ↦ one j k r s (before j r a fj) (before k s b fk) o d
    ]
  ]

-- A student opens a request, or a teacher answers one.
pub data Appeal : Type 0 where
  create : ℕ → NewRequest → Appeal
  respond : ℕ → ReviewRequestStatus → String → Appeal

pub serve : ℕ → ℕ → User → Appeal → Db → Db
serve now user_id user (Appeal.create result_id payload) db =
    persisted db (create_review_request now result_id payload user_id user db)
serve now user_id user (Appeal.respond id status response) db =
    persisted db (respond_review_request now id status response user_id user db)

kept-by {ℓ} :
    {A : Type ℓ} (P : Db → Type 0) (db : Db) (o : Outcome A)
    → P db
    → Ensures (λ _ db'. P db') o
    → P (persisted db o)
kept-by P db (returned a db') p q = q
kept-by P db (raised e) p q = p
kept-by P db (committed e db') p q = absurd q

abbrev OneOpen : Db → Type 0
OneOpen db = HasOneOpen db.review_requests

serve-HasOneOpen :
    (now user_id : ℕ) (user : User) (a : Appeal) (db : Db)
    → HasOneOpen db.review_requests
    → HasOneOpen (serve now user_id user a db).review_requests
unfolding serve
serve-HasOneOpen now user_id user (Appeal.create result_id payload) db one =
    kept-by OneOpen db _ one (
      Ensures-mono _ _ _
        (λ _ db' (q : IsRequest now result_id payload user_id user db db').
          changed-HasOneOpen db.next_uuid _ db.review_requests db'.review_requests q.request
            q.others_stay
            (λ _ k s f.
              rw (q.about.0, q.asked_by, q.about.2)
                (none-fits _ db.review_requests k s q.no_other f))
            one)
        (create_review_request-IsRequest now result_id payload user_id user db))
serve-HasOneOpen now user_id user (Appeal.respond id status response) db one =
    kept-by OneOpen db _ one (
      Ensures-mono _ _ _
        (λ _ db' (q : IsAnswer now id status response user_id user db db').
          changed-HasOneOpen id _ db.review_requests db'.review_requests q.answer q.others_stay
            (λ o k s f. ground (arith, q.is_final)) one)
        (respond_review_request-IsAnswer now id status response user_id user db))

pub serve_appeals : List (ℕ × ℕ × User × Appeal) → Db → Db
serve_appeals [] db = db
serve_appeals ((now, user_id, user, a) ∷ rest) db = serve_appeals rest (serve now user_id user a db)

-- If every student has at most one open request on a criterion of a result, then this holds again
-- after any sequence of requests that are opened and answered.
pub serve_appeals-HasOneOpen :
    (steps : List (ℕ × ℕ × User × Appeal)) (db : Db)
    → HasOneOpen db.review_requests
    → HasOneOpen (serve_appeals steps db).review_requests
unfolding serve_appeals
serve_appeals-HasOneOpen [] db one = one
serve_appeals-HasOneOpen ((now, user_id, user, a) ∷ rest) db one =
    serve_appeals-HasOneOpen rest (serve now user_id user a db)
      (serve-HasOneOpen now user_id user a db one)
