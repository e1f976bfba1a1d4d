-- ===== src/Notifications/Inbox.antt =====
-- Marking notifications as read, backend/app/services/notification.py.
use doc_grading.Prelude.{
  ℕ, Bool, not, ◌&&◌, Option, none, some, List, [], ◌∷◌, find, put, any, length, ◌==◌, Table,
  if◌then◌else◌,
}
use doc_grading.Models.Rows.{Notification}
use doc_grading.Models.Tx.{Tx, Error, raise_if, lookup, gets, modify, ◌>>=◌, ◌>>◌}

abbrev not_found : Error
not_found = Error.http 404 "Notification not found"

abbrev if_own : ℕ → Option Notification → Option Notification
if_own user_id none = none
if_own user_id (some n) = if n.recipient_id == user_id then some n else none

-- a notification that is read already keeps its time
abbrev pub marked : ℕ → Option ℕ → Notification → Notification
marked now none n = record n { read_at = some now }
marked now (some at) n = n

unfoldable pub put_notification : ℕ → Notification → Tx (Unit {0})
put_notification id n = modify λ db. record db { notifications = put id n db.notifications }

unfoldable pub mark_notification_read : ℕ → ℕ → ℕ → Tx (Unit {0})
mark_notification_read now id user_id = do
  n ← lookup (λ db. if_own user_id (find id db.notifications)) not_found
  put_notification id (marked now n.read_at n)

abbrev pub is_asked : List ℕ → ℕ → ℕ → Notification → Bool
is_asked ids user_id id n = any (λ i. i == id) ids && n.recipient_id == user_id

-- the notifications of the select
unfoldable pub asked : List ℕ → ℕ → Table Notification → Table Notification
asked ids user_id [] = []
asked ids user_id ((id, n) ∷ t) =
    if is_asked ids user_id id n then (id, n) ∷ asked ids user_id t else asked ids user_id t

-- the table after the loop
unfoldable pub mark_asked : ℕ → List ℕ → ℕ → Table Notification → Table Notification
mark_asked now ids user_id [] = []
mark_asked now ids user_id ((id, n) ∷ t) =
    if is_asked ids user_id id n
    then (id, marked now n.read_at n) ∷ mark_asked now ids user_id t
    else (id, n) ∷ mark_asked now ids user_id t

unfoldable pub mark_notifications_read : ℕ → List ℕ → ℕ → Tx (Unit {0})
mark_notifications_read now ids user_id = do
  found ← gets λ db. asked ids user_id db.notifications
  raise_if (not (length found == length ids)) not_found
  modify λ db. record db { notifications = mark_asked now ids user_id db.notifications }
