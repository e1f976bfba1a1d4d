-- ===== src/Lib.antt =====
-- The backend of DocGrading: students hand in documents, workers analyse them, teachers review the
-- findings and publish the results.
--
-- The parts. A handler of backend/app/services runs in the transaction of its request: the router
-- commits after it has returned, and an exception rolls everything back (backend/app/db/session.py).
-- Handlers meet in the database: an upload makes an analysis job and a row in the outbox; the outbox
-- is handed to the broker; a worker claims the job, and its end moves the document on to the review;
-- a reviewer holds a lock, approves a snapshot and publishes it, and a student may ask for a review
-- of it; notices go to students and the audit trail keeps every change.
--
-- The files.
-- - Prelude: tests, lists, tables (rows under primary keys) and texts.
-- - Models: the enumerations and rows of backend/app/models, the database as a record of tables (Db),
--   a handler as a function of the database with its three ends (Tx: returned, raised, and committed
--   by itself before raising), and the rules to reason about handlers (Ensures, Reads, Hoare, Frames,
--   Returns).
-- - Audit, Notifications: backend/app/services/audit.py and notification.py; of the latter, Delivery
--   has the lemmas on notices, Inbox the marking as read and Reading its result.
-- - Jobs: analysis_job.py and analysis_dispatch.py. Defs, Claim, Finish and Retry are the operations,
--   Report the report of a failure, Outbox and Dispatch the outbox. Machine is the life of one job as
--   a step relation on its row; Moves, Refines, Claims, Changes and Writes show that each operation is
--   such a step; Selection, Fencing, Trace, Progress and Delivery have the results.
-- - Review: review.py. Access, Locks, Decisions, Drafts, Commands, Snapshot, Publish, Unpublish and
--   Bulk are the operations; Exclusion, Mutex, Overrides, Storing, Saving, Kept, Idempotency,
--   Approval, Publication and BulkPublication have the results.
-- - Submissions: submission.py. Initiate and Complete are the operations; Numbers, Versions, Uploads,
--   Completion, Outage, Sealing and Recovery have the results.
-- - Worker: the task of workers/tasks.py as its two transactions; Fenced and Agreement have the
--   results.
-- - Courses: course.py and course_join.py. Records, Members, Codes and Joining are the operations;
--   Draws, CodeTable, Latest, OneCode, CodeRequests, Untouched, Admission, Roster, OneEach and
--   MemberRequests have the results.
-- - Rubrics: rubric.py and assignment.py. Criteria, Assignments and Edits are the operations; Weights,
--   Totals, Ledger, Rooted, Life, Requests and Opening have the results.
-- - Appeals: appeal.py, with Opening for the opening of a request; Answers, Requests and OneOpen have
--   the results, Frame what leaves the requests alone.
-- - Accounts: create_user and update_user of operations.py, with Administrators.
-- - Auth: auth.py. Login is the account's lockout and Limiter the client's limit, Sessions the
--   sessions on the server; Lockout, Capacity and SessionLife have the results.
-- - Gate: semantic_gate.py, with Decision.
-- - Tests: a small course, runs on it, and the theorems applied at it.
--
-- How the code is read. A uuid is a number, and uuid4 the next number that no row has. A datetime is
-- a number of microseconds, and timedelta(seconds=n) is n * 1000000; one operation reads the clock
-- once. A cutoff `touch <= now - lease` is written `touch + lease <= now`. Scores, weights and
-- fractions are whole numbers of their smallest unit. The object that the ORM has loaded for a row is
-- the row as it is stored. `skip_locked` is a predicate of the rows that other transactions hold. A
-- row is stored when the code flushes it. JSON holds an identifier as a number where the code writes
-- its text. Messages of errors are kept, without the values that the code prints into them.
--
-- Parameters, for code that is not in the repository or is not modelled: the broker, Argon2, SHA-256
-- of a canonical JSON text, the lower case of a text, the upper case of a text, the text of a uuid,
-- the digest of the subject of a limit, the codes that are drawn, the answers of the storage,
-- what the stages of an analysis come to, the snapshot of the active route to a language
-- model, the index of the elements of a document IR, the database's order on texts, and the schema
-- that a stored response of a publication is checked against.
--
-- Bounds: no definition runs on fuel; loops are recursion on the rows, and every function is total.
-- The loop that draws a join code is recursion on the list of draws: more distinct draws than there
-- are codes are enough.
--
-- Not modelled: PDF parsing, citation heuristics and language models (libraries and network calls),
-- storage, routing and validation of requests, and, so far, the read-only views and lists of
-- review.py, submission.py and course.py, the listings and metrics of operations.py, and the checks of
-- the schema that no modelled code makes.
pub mod Prelude
pub mod Models
pub mod Audit
pub mod Notifications
pub mod Jobs
pub mod Review
pub mod Gate
pub mod Auth
pub mod Rubrics
pub mod Worker
pub mod Courses
pub mod Submissions
pub mod Accounts
pub mod Appeals
pub mod Tests
