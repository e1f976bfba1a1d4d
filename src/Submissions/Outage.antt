-- ===== src/Submissions/Outage.antt =====
-- What the storage's answers make of completing an upload.
use doc_grading.Prelude.{
  ℕ, ◌+◌, ◌≡◌, refl, true, ◌&&◌, put, arith, inl, inr, Bool-cases, ◌==◌, ==_iff,
}
use doc_grading.Models.Rows.{DocumentVersion}
use doc_grading.Models.Db.{Db}
use doc_grading.Models.Tx.{tx, Error, pure, raise}
use doc_grading.Models.Ends.{Ends}
use doc_grading.Jobs.Defs.{put_document}
use doc_grading.Submissions.{Texts}
use doc_grading.Submissions.Initiate.{is_pdf}
use doc_grading.Submissions.Complete.{
  head_of, sealed_of, fail_storage, storage_failed, StorageAnswer, ObjectHead,
}

-- What a storage failure commits: the document's failure and nothing else, but for the identifiers
-- that were given out.
pub record IsOutage (id : ℕ) (v : DocumentVersion) (db : Db) (e : Error) (db' : Db) : Type 0 where
  pub error : e ≡ Error.http 503 "Object storage is temporarily unavailable"
  pub next : ℕ
  pub written :
      db' ≡ record db { documents = put id (storage_failed v) db.documents; next_uuid = next }

pub fail_storage-IsOutage {ℓ} :
    {A : Type ℓ} (Q : A → Db → Type 0) (id : ℕ) (v : DocumentVersion) (db : Db)
    → Ends Q (IsOutage id v db) (fail_storage id v db)
unfolding fail_storage put_document tx
fail_storage-IsOutage Q id v db = record { error = refl; next = db.next_uuid; written = refl }

-- an identifier that was given out makes no difference
pub moved-IsOutage :
    {id : ℕ} {v : DocumentVersion} (db : Db) (e : Error) (db' : Db)
    → IsOutage id v (record db { next_uuid = db.next_uuid + 1 }) e db'
    → IsOutage id v db e db'
moved-IsOutage db e db' o = record { error = o.error; next = o.next; written = o.written }

pub head_of-Ends :
    (id : ℕ) (v : DocumentVersion) (answer : StorageAnswer) (db : Db)
    → Ends
        (λ head db'. (db' ≡ db) × (answer ≡ StorageAnswer.object head))
        (IsOutage id v db)
        (head_of id v answer db)
unfolding head_of pure raise
head_of-Ends id v (StorageAnswer.object head) db = (refl, refl)
head_of-Ends id v StorageAnswer.missing db = tt
head_of-Ends id v StorageAnswer.changed db = fail_storage-IsOutage _ id v db
head_of-Ends id v StorageAnswer.unavailable db = fail_storage-IsOutage _ id v db

-- what a sealed copy says
abbrev pub Sealed : Texts → ObjectHead → StorageAnswer → ObjectHead → Type 0
Sealed texts head answer sealed =
    (answer ≡ StorageAnswer.object sealed)
    × (is_pdf texts sealed.content_type ≡ true)
    × (sealed.content_length ≡ head.content_length)

pub sealed_of-Ends :
    (texts : Texts) (id : ℕ) (v : DocumentVersion) (head : ObjectHead) (answer : StorageAnswer)
    (db : Db)
    → Ends
        (λ sealed db'. (db' ≡ db) × Sealed texts head answer sealed)
        (IsOutage id v db)
        (sealed_of texts id v head answer db)
unfolding sealed_of pure raise
sealed_of-Ends texts id v head (StorageAnswer.object sealed) db =
    elim (Bool-cases
      (is_pdf texts sealed.content_type && sealed.content_length == head.content_length)) [
        | inl h ↦ rw h (
          refl,
          (refl, ground arith, (==_iff sealed.content_length head.content_length).0 (ground arith)),
        )
        | inr h ↦ rw h (fail_storage-IsOutage _ id v db)
      ]
sealed_of-Ends texts id v head StorageAnswer.missing db = tt
sealed_of-Ends texts id v head StorageAnswer.changed db = tt
sealed_of-Ends texts id v head StorageAnswer.unavailable db = fail_storage-IsOutage _ id v db
