-- ===== src/Courses/CodeRequests.antt =====
-- What teachers ask of the codes of their courses, in any order: backend/app/services/course_join.py.
use doc_grading.Prelude.{ℕ, String, List, [], ◌∷◌}
use doc_grading.Models.Db.{Db}
use doc_grading.Models.Tx.{Outcome, returned, raised, committed, persisted}
use doc_grading.Models.Ensures.{Ensures}
use doc_grading.Courses.Codes.{
  create_join_code, update_join_code, revoke_join_code, regenerate_join_code,
}
use doc_grading.Courses.OneCode.{
  IsCoded, create_join_code-Kept, update_join_code-Kept, revoke_join_code-Kept,
  regenerate_join_code-Kept,
}

-- what a teacher asks of a course's code
pub data CodeRequest : Type 0 where
  create : List String → ℕ → ℕ → ℕ → CodeRequest
  update : ℕ → ℕ → ℕ → CodeRequest
  revoke : ℕ → ℕ → CodeRequest
  regenerate : List String → ℕ → ℕ → ℕ → CodeRequest

pub serve_code : ℕ → CodeRequest → Db → Db
serve_code now (create draws c expires_at actor) db =
    persisted db (create_join_code now draws c expires_at actor db)
serve_code now (update c expires_at actor) db =
    persisted db (update_join_code now c expires_at actor db)
serve_code now (revoke c actor) db = persisted db (revoke_join_code now c actor db)
serve_code now (regenerate draws c expires_at actor) db =
    persisted db (regenerate_join_code now draws c expires_at actor db)

pub serve_codes : List (ℕ × CodeRequest) → Db → Db
serve_codes [] db = db
serve_codes ((now, r) ∷ rs) db = serve_codes rs (serve_code now r db)

persisted-IsCoded :
    {A : Type 0} (o : Outcome A) (db : Db)
    → IsCoded db
    → Ensures (λ _ db'. IsCoded db') o
    → IsCoded (persisted db o)
persisted-IsCoded (returned a db') db c k = k
persisted-IsCoded (raised e) db c k = c
persisted-IsCoded (committed e db') db c k = absurd k

serve_code-IsCoded :
    (now : ℕ) (r : CodeRequest) (db : Db) → IsCoded db → IsCoded (serve_code now r db)
unfolding serve_code
serve_code-IsCoded now (create draws k expires_at actor) db c =
    persisted-IsCoded _ db c (create_join_code-Kept now k actor draws expires_at db c)
serve_code-IsCoded now (update k expires_at actor) db c =
    persisted-IsCoded _ db c (update_join_code-Kept now k actor expires_at db c)
serve_code-IsCoded now (revoke k actor) db c =
    persisted-IsCoded _ db c (revoke_join_code-Kept now k actor db c)
serve_code-IsCoded now (regenerate draws k expires_at actor) db c =
    persisted-IsCoded _ db c (regenerate_join_code-Kept now k actor draws expires_at db c)

-- After any sequence of creations, extensions, revocations and regenerations of join codes, from
-- well-formed codes whose identifiers are below the next: the same holds, so a course has at most
-- one code that is not revoked, and no code is there twice.
pub serve_codes-IsCoded :
    (rs : List (ℕ × CodeRequest)) (db : Db) → IsCoded db → IsCoded (serve_codes rs db)
unfolding serve_codes
serve_codes-IsCoded [] db c = c
serve_codes-IsCoded ((now, r) ∷ rs) db c =
    serve_codes-IsCoded rs (serve_code now r db) (serve_code-IsCoded now r db c)
