-- ===== src/Review/Commands.antt =====
-- Idempotent commands, `_command_start` and `_command_finish` of backend/app/services/review.py.
use doc_grading.Prelude.{
  ℕ, String, Bool, not, ◌&&◌, ◌||◌, Option, none, some, put, find_by, str_eq, ◌==◌, ltb, is_blank,
  len_text,
}
use doc_grading.Models.Json.{Fields}
use doc_grading.Models.Rows.{ReviewCommand}
use doc_grading.Models.Tx.{Tx, Error, pure, raise_if, gets, modify, new_uuid, ◌>>=◌, ◌>>◌}

-- who asks, for what, and under which `Idempotency-Key`
pub record Command : Type 0 where
  pub actor_user_id : ℕ
  pub action : String
  pub idempotency_key : String
  -- SHA-256 of the payload as canonical JSON
  pub fingerprint : String

abbrev pub is_command_of : Command → ReviewCommand → Bool
is_command_of c row =
    row.actor_user_id == c.actor_user_id
    && str_eq row.action c.action
    && str_eq row.idempotency_key c.idempotency_key

abbrev pub has_key : Command → Bool
has_key c = not (is_blank c.idempotency_key || ltb 128 (len_text c.idempotency_key))

abbrev replayed : Command → Option (ℕ × ReviewCommand) → Tx (Option Fields)
replayed c none = pure none
replayed c (some (id, row)) = do
  raise_if (not (str_eq row.request_fingerprint c.fingerprint))
      (Error.http 409 "Idempotency-Key payload conflict")
  pure (some row.response)

unfoldable pub command_start : Command → Tx (Option Fields)
command_start c = do
  raise_if (not (has_key c)) (Error.http 400 "Idempotency-Key is required")
  command ← gets λ db. find_by (is_command_of c) db.review_commands
  replayed c command

abbrev pub new_command : Command → Fields → ReviewCommand
new_command c response = record {
  actor_user_id = c.actor_user_id;
  action = c.action;
  idempotency_key = c.idempotency_key;
  request_fingerprint = c.fingerprint;
  response = response;
}

unfoldable pub command_finish : Command → Fields → Tx (Unit {0})
command_finish c response = do
  id ← new_uuid
  modify λ db. record db { review_commands = put id (new_command c response) db.review_commands }

-- `if replay is not None: return replay`, and otherwise the command with its record
unfoldable pub resume : Command → Tx Fields → Option Fields → Tx Fields
resume c body (some response) = pure response
resume c body none = do response ← body; command_finish c response; pure response
