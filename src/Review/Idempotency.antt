-- ===== src/Review/Idempotency.antt =====
-- A command that is sent again returns the recorded response and changes nothing.
use doc_grading.Prelude.{
  ℕ, ◌≤◌, ◌≡◌, refl, ◌∙◌, sym, subst, String, true, Option, none, some, arith, find, find_by,
  str_eq, eq_refl, Option-cases, Bool-cases, inl, inr, find_by-put_new, ==_self,
}
use doc_grading.Models.Json.{Fields}
use doc_grading.Models.Rows.{User}
use doc_grading.Models.Db.{Db}
use doc_grading.Models.Tx.{Outcome, returned, raised, committed, Tx, Error, tx, pure, ◌>>=◌, ◌>>◌}
use doc_grading.Models.Ensures.{Ensures, Ensures-mono}
use doc_grading.Models.Reads.{Reads}
use doc_grading.Models.Frames.{Frames}
use doc_grading.Review.Commands.{
  Command, command_start, command_finish, resume, has_key, is_command_of, new_command,
}
use doc_grading.Review.Kept.{KeepsCommands, approve_new-Keeps}
use doc_grading.Review.Snapshot.{AnchorIndex}
use doc_grading.Review.Publish.{Digest, Schema, answer, approve_command, approve_document_version}

-- No recorded command has an identifier that is still to be given.
abbrev pub IsFresh : Db → Type 0
IsFresh db = (k : ℕ) → db.next_uuid ≤ k → find k db.review_commands ≡ none

module _ (c : Command) (db : Db) where
  -- the three ends of `_command_start`
  data Starts (o : Outcome (Option Fields)) : Type 0 where
    refused : (e : Error) → o ≡ raised e → Starts o
    replays : (response : Fields) → o ≡ returned (some response) db → Starts o
    opens :
        has_key c ≡ true
        → find_by (is_command_of c) db.review_commands ≡ none
        → o ≡ returned none db
        → Starts o

  command_start-Starts : Starts (command_start c db)
  unfolding command_start tx
  command_start-Starts = elim (Bool-cases (has_key c)) [
    | inr h ↦ Starts.refused (Error.http 400 "Idempotency-Key is required") (ground arith)
    | inl h ↦ elim (Option-cases (find_by (is_command_of c) db.review_commands)) [
      | inl e ↦ Starts.opens h e (ground arith)
      | inr ((id, row), e) ↦ elim (Bool-cases (str_eq row.request_fingerprint c.fingerprint)) [
        | inl k ↦ Starts.replays row.response (ground arith)
        | inr k ↦ Starts.refused (Error.http 409 "Idempotency-Key payload conflict") (ground arith)
      ]
    ]
  ]

  -- A recorded command is replayed.
  start-recorded :
      (id : ℕ) (response : Fields)
      → has_key c ≡ true
      → find_by (is_command_of c) db.review_commands ≡ some (id, new_command c response)
      → command_start c db ≡ returned (some response) db
  unfolding command_start tx
  start-recorded id response h e = ground (arith, eq_refl c.fingerprint)

module _ (c : Command) (body : Tx Fields) (keeps : Frames KeepsCommands body) where
  abbrev Replays : Fields → Db → Type 0
  Replays response db = command_start c db ≡ returned (some response) db

  finish-Replays :
      (response : Fields) (db : Db)
      → has_key c ≡ true
      → find db.next_uuid db.review_commands ≡ none
      → find_by (is_command_of c) db.review_commands ≡ none
      → Ensures Replays ((command_finish c response >> pure response) db)
  unfolding command_finish tx
  finish-Replays response db h f e = start-recorded c _ db.next_uuid response h (
      find_by-put_new (is_command_of c) db.next_uuid (new_command c response) db.review_commands f e
        (ground (arith, ==_self c.actor_user_id, eq_refl c.action, eq_refl c.idempotency_key)))

  resume-Replays :
      (db : Db)
      → IsFresh db
      → has_key c ≡ true
      → find_by (is_command_of c) db.review_commands ≡ none
      → Ensures Replays (resume c body none db)
  unfolding resume ◌>>=◌
  resume-Replays db fresh h e = after (body db) (keeps.at db)
    where
      after :
          (o : Outcome Fields)
          → Ensures (λ _ db'. KeepsCommands db db') o
          → Ensures Replays
              (((λ _. o) >>= λ response. (command_finish c response >> pure response)) db)
      after (returned response db') k =
          finish-Replays response db' h (rw k.0 (fresh db'.next_uuid k.1)) (rw k.0 e)
      after (raised x) k = tt
      after (committed x db') k = absurd k

  -- Once the command has returned, its next start finds the same response.
  pub run-Replays :
      (db : Db) → IsFresh db → Ensures Replays ((command_start c >>= resume c body) db)
  unfolding ◌>>=◌ resume pure
  run-Replays db fresh = from (command_start c db) refl (command_start-Starts c db)
    where
      from :
          (o : Outcome (Option Fields))
          → command_start c db ≡ o
          → Starts c db o
          → Ensures Replays (((λ _. o) >>= resume c body) db)
      from o s (Starts.refused x e) =
          subst (λ o'. Ensures Replays (((λ _. o') >>= resume c body) db)) (sym e) tt
      from o s (Starts.replays response e) =
          subst (λ o'. Ensures Replays (((λ _. o') >>= resume c body) db)) (sym e) (s ∙ e)
      from o s (Starts.opens h f e) =
          subst (λ o'. Ensures Replays (((λ _. o') >>= resume c body) db)) (sym e)
            (resume-Replays db fresh h f)

-- and so the command sent again returns this response and leaves the database as it is
replay-lem :
    (c : Command) (body : Tx Fields) (response : Fields) (db : Db)
    → command_start c db ≡ returned (some response) db
    → (command_start c >>= resume c body) db ≡ returned response db
unfolding ◌>>=◌ resume pure
replay-lem c body response db e =
    subst (λ o. ((λ _. o) >>= resume c body) db ≡ returned response db) (sym e) refl

-- If an approval has returned a response, then the same request sent again, at any time, returns
-- this response and changes nothing, if no recorded command had an identifier still to be given.
pub approve-idempotent :
    (digest : Digest) (now later version_id user_id : ℕ) (index index' : AnchorIndex)
    (user user' : User) (key : String) (db : Db)
    → IsFresh db
    → Ensures
        (λ response db'.
          approve_document_version digest later index' version_id user_id user' key db'
          ≡ returned response db')
        (approve_document_version digest now index version_id user_id user key db)
unfolding approve_document_version
approve-idempotent digest now later version_id user_id index index' user user' key db fresh =
    Ensures-mono _ _ _
      (λ response db' e.
        replay-lem (approve_command digest version_id user_id key) _ response db' e)
      (run-Replays (approve_command digest version_id user_id key) _
        (approve_new-Keeps now index version_id user_id user) db fresh)

module _ (schema : Schema) (c : Command) where
  -- a command with the answer of the schema
  abbrev Answers : Tx Fields → Tx Fields
  Answers body = command_start c >>= λ replay. (resume c body replay >>= answer schema replay)
