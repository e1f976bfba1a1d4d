-- ===== src/Tests/OtherRuns.antt =====
-- Rubrics, sign-in, sessions, the inbox and the quality gate.
use doc_grading.Prelude.{
  ℕ, ◌+◌, ◌<◌, ◌≤◌, ◌≡◌, List, refl, Bool, true, false, Option, none, some, [], ◌∷◌, arith, find,
  find_by, put, is_blank, str_eq,
}
use doc_grading.Models.Enums.{DocumentStatus, NotificationType}
use doc_grading.Models.Json.{Fields}
use doc_grading.Models.Rows.{User, Notification}
use doc_grading.Models.Db.{Db}
use doc_grading.Models.Tx.{returned, persisted}
use doc_grading.Jobs.Defs.{seconds}
use doc_grading.Models.Ensures.{Ensures}
use doc_grading.Rubrics.Assignments.{publish_assignment}
use doc_grading.Rubrics.Opening.{IsOpening, publish_assignment-IsOpening}
use doc_grading.Auth.Login.{Settings, Crypto, authenticate_account}
use doc_grading.Auth.Lockout.{guessing-locks, try_all}
use doc_grading.Auth.Limiter.{make_room, Attempts, reserve_login_attempt, release_login_attempt}
use doc_grading.Auth.Capacity.{Reserved, reserve-IsReserved, release-reserve}
use doc_grading.Auth.Sessions.{create_session, get_valid_session, revoke_session, new_session}
use doc_grading.Auth.SessionLife.{
  SessionRequest, serve_all, create_session-valid, revoke_session-invalid,
}
use doc_grading.Notifications.Inbox.{mark_notifications_read}
use doc_grading.Notifications.Reading.{Reading, mark_notifications_read-Reading}
use doc_grading.Gate.{
  RunConfiguration, Approval, decide, entry_of, matching, first_approved, judge, same_configuration,
  is_approved, meets_thresholds, is_verified,
}
use doc_grading.Gate.Decision.{Grants, decide-Grants}
use doc_grading.Tests.Data.{school, document, assignment, teacher}

abbrev course : Db
course = school (document DocumentStatus.queued)

publish_assignment-IsOpening_example :
    Ensures
      (λ _ db'. IsOpening 1000 1 5 assignment course db')
      (publish_assignment 1000 1 5 assignment course)
publish_assignment-IsOpening_example = publish_assignment-IsOpening 1000 1 5 assignment course

abbrev settings : Settings
settings = record {
  login_failure_window_seconds = 900;
  login_ip_max_failed_attempts = 30;
  login_max_failed_attempts = 2;
  login_lockout_seconds = 900;
}

abbrev crypto : Crypto
crypto = record {
  verify_password = str_eq;
  needs_rehash = λ _. false;
  hash_password = λ p. p;
  lower = λ s. s;
}

abbrev locked_user : User
locked_user = record teacher { failed_login_attempts = 0; failed_login_window_started_at = some 0 }

abbrev site : Db
site = record course { users = (1, locked_user) ∷ [] }

guessing-locks_example :
    authenticate_account settings crypto 5000 "an@example.org" "hash"
      (try_all settings crypto "an@example.org" ((1000, "a") ∷ (2000, "b") ∷ []) site)
    ≡ returned none (try_all settings crypto "an@example.org" ((1000, "a") ∷ (2000, "b") ∷ []) site)
unfolding find find_by
guessing-locks_example =
    guessing-locks settings crypto "an@example.org" 0 ((1000, "a") ∷ []) 2000 1 0 5000 "b" "hash"
      locked_user site (record { unique = (refl, tt); account = refl })
      (record { failures_are = refl; began = refl; open_ = refl }) refl ((omega arith, refl), tt)
      (omega arith, refl) (omega arith)

abbrev clients : Attempts
clients = (77, (0, 3)) ∷ []

reserve-IsReserved_example :
    Reserved settings 1000 77 clients (reserve_login_attempt settings 1000 77 clients)
reserve-IsReserved_example = reserve-IsReserved settings 1000 77 clients (omega arith)

release-reserve_example : find 77 (release_login_attempt 77 ((77, (0, 4)) ∷ [])) ≡ some (0, 3)
unfolding find put reserve_login_attempt make_room
release-reserve_example =
    release-reserve settings 1000 77 0 3 clients ((77, (0, 4)) ∷ []) refl refl (omega arith)

abbrev run : RunConfiguration
run = record {
  evaluator_version = "1";
  prompt_version = "1";
  prompt_fingerprint = "f";
  retrieval_version = "1";
  source_ir_version = 1;
  provider = "p";
  protocol = "p";
  model_id = "m";
  encoder_model = "e";
  encoder_fingerprint = "f";
  encoder_query_prefix = "";
  reranker = false;
  max_tokens = 512;
}

abbrev approval : Approval
approval = record {
  approval_id = "a";
  configuration = run;
  benchmark = record {
    annotation_status = "AI_CONSENSUS";
    pairs = 800;
    human_gold_pairs = 0;
    double_annotated_fraction = 0;
    heldout_agreement = 960000;
    anchor_completeness = 1000000;
    structured_success_rate = 1000000;
    macro_f1 = 850000;
    false_accusation_rate = 10000;
    hit_at_3 = 950000;
  };
  approved_by = some "owner";
  approved_at = some 1;
}

abbrev has_model : Bool
has_model = true

abbrev failures : Option ℕ
failures = some 0

decide-Grants_example :
    (has_model ≡ true) × (failures ≡ some 0) × ((a : Approval) × Grants (approval ∷ []) run a)
unfolding decide entry_of matching first_approved judge same_configuration is_approved
    meets_thresholds is_verified is_blank
decide-Grants_example = decide-Grants (approval ∷ []) run has_model failures refl

create_session-valid_example :
    Ensures
      (λ id db'.
        (2000000 < 0 + seconds 3 → get_valid_session 2000000 id db' ≡ some (new_session 0 3 1))
        × (0 + seconds 3 ≤ 2000000 → get_valid_session 2000000 id db' ≡ none))
      (create_session 0 3 1 course)
unfolding find
create_session-valid_example = create_session-valid 0 3 1 2000000 teacher course refl refl

abbrev signed_in : Db
signed_in = record course { sessions = (50, new_session 0 3 1) ∷ [] }

abbrev later_requests : List (ℕ × SessionRequest)
later_requests = (2, SessionRequest.create 3 1) ∷ (3, SessionRequest.revoke 50) ∷ []

revoke_session-invalid_example :
    get_valid_session 5 50
      (serve_all later_requests (persisted signed_in (revoke_session 1 50 signed_in)))
    ≡ none
unfolding find
revoke_session-invalid_example =
    revoke_session-invalid 1 50 5 (new_session 0 3 1) later_requests signed_in refl (omega arith)

abbrev notice : Notification
notice = record {
  recipient_id = 1;
  type = NotificationType.result_published;
  payload = Fields.end;
  read_at = none;
}

abbrev mailbox : Db
mailbox = record course { notifications = (60, notice) ∷ [] }

mark_notifications_read-Reading_example :
    Ensures
      (λ _ db'.
        Reading 9 1 60 (60 ∷ []) (find 60 mailbox.notifications) (find 60 db'.notifications))
      (mark_notifications_read 9 (60 ∷ []) 1 mailbox)
mark_notifications_read-Reading_example = mark_notifications_read-Reading 9 1 60 (60 ∷ []) mailbox
