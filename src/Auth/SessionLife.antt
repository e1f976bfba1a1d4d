-- ===== src/Auth/SessionLife.antt =====
-- A session lives from its creation until it expires or is revoked, and its user is active.
use doc_grading.Prelude.{
  ℕ, ◌+◌, ◌<◌, ◌≤◌, ◌≡◌, refl, true, Option, none, some, List, [], ◌∷◌, find, find-put_self,
  find-put_ne, arith, Bool-cases, Option-cases, inl, inr, is_none,
}
use doc_grading.Models.Rows.{Session, User}
use doc_grading.Models.Db.{Db}
use doc_grading.Models.Tx.{tx, persisted}
use doc_grading.Models.Ensures.{Ensures}
use doc_grading.Jobs.Defs.{seconds}
use doc_grading.Auth.Login.{is_active}
use doc_grading.Auth.Sessions.{
  create_session, get_valid_session, revoke_session, revoke_row, put_session, new_session,
}

-- A new session of an active user is valid until its lifetime is over, and not after that.
pub create_session-valid :
    (now lifetime user_id later : ℕ) (u : User) (db : Db)
    → find user_id db.users ≡ some u
    → is_active u.status ≡ true
    → Ensures
        (λ id db'.
          (later < now + seconds lifetime
            → get_valid_session later id db' ≡ some (new_session now lifetime user_id))
          × (now + seconds lifetime ≤ later → get_valid_session later id db' ≡ none))
        (create_session now lifetime user_id db)
unfolding create_session put_session get_valid_session tx
create_session-valid now lifetime user_id later u db f a = (
  (λ h.
      rw (find-put_self db.next_uuid (new_session now lifetime user_id) db.sessions)
        (ground arith)),
  (λ h.
      rw (find-put_self db.next_uuid (new_session now lifetime user_id) db.sessions)
        (ground arith)),
)

-- one request on sessions
pub data SessionRequest : Type 0 where
  create : ℕ → ℕ → SessionRequest
  revoke : ℕ → SessionRequest

pub serve : ℕ → SessionRequest → Db → Db
serve now (SessionRequest.create lifetime user_id) db =
    persisted db (create_session now lifetime user_id db)
serve now (SessionRequest.revoke id) db = persisted db (revoke_session now id db)

pub serve_all : List (ℕ × SessionRequest) → Db → Db
serve_all [] db = db
serve_all ((now, r) ∷ rs) db = serve_all rs (serve now r db)

-- the session has been revoked, and identifiers up to its own are taken
record IsRevoked (id : ℕ) (db : Db) : Type 0 where
  session : Session
  at : ℕ
  present : find id db.sessions ≡ some session
  revoked : session.revoked_at ≡ some at
  taken : id < db.next_uuid

serve-IsRevoked :
    (id now : ℕ) (r : SessionRequest) (db : Db) → IsRevoked id db → IsRevoked id (serve now r db)
unfolding serve create_session put_session revoke_session tx
serve-IsRevoked id now (SessionRequest.create lifetime user_id) db v = record {
  session = v.session;
  at = v.at;
  present =
      rw
        (find-put_ne db.next_uuid id (new_session now lifetime user_id) db.sessions
          (λ e. omega (arith, v.taken, e)))
        v.present;
  revoked = v.revoked;
  taken = omega (arith, v.taken);
}
serve-IsRevoked id now (SessionRequest.revoke j) db v = row (find j db.sessions) refl
  where
    row :
        (o : Option Session)
        → find j db.sessions ≡ o
        → IsRevoked id (persisted db (revoke_row now j o db))
    row none e = v
    row (some s) e = elim (Bool-cases (is_none s.revoked_at)) [
      | inr h ↦ rw h v
      | inl h ↦ rw h (record {
        session = v.session;
        at = v.at;
        present =
            rw
              (find-put_ne j id (record s { revoked_at = some now }) db.sessions
                (λ q. ground (arith, v.present, v.revoked)))
              v.present;
        revoked = v.revoked;
        taken = v.taken;
      })
    ]

serve_all-invalid :
    (id later : ℕ) (rs : List (ℕ × SessionRequest)) (db : Db)
    → IsRevoked id db
    → get_valid_session later id (serve_all rs db) ≡ none
unfolding serve_all get_valid_session
serve_all-invalid id later [] db v = ground (arith, v.present, v.revoked)
serve_all-invalid id later ((now, r) ∷ rs) db v =
    serve_all-invalid id later rs (serve now r db) (serve-IsRevoked id now r db v)

revoke_session-IsRevoked :
    (now id : ℕ) (s : Session) (db : Db)
    → find id db.sessions ≡ some s
    → id < db.next_uuid
    → IsRevoked id (persisted db (revoke_session now id db))
unfolding revoke_session put_session tx
revoke_session-IsRevoked now id s db f l = elim (Option-cases s.revoked_at) [
  | inl e ↦
      rw (f, e)
        (record {
          session = record s { revoked_at = some now };
          at = now;
          present = find-put_self id (record s { revoked_at = some now }) db.sessions;
          revoked = refl;
          taken = l;
        })
  | inr (at, e) ↦ rw (f, e) (record { session = s; at = at; present = f; revoked = e; taken = l })
]

-- After the revocation of a stored session with an identifier that has been given out, the session
-- is valid at no time, whatever sessions are created or revoked afterwards.
pub revoke_session-invalid :
    (now id later : ℕ) (s : Session) (rs : List (ℕ × SessionRequest)) (db : Db)
    → find id db.sessions ≡ some s
    → id < db.next_uuid
    → get_valid_session later id (serve_all rs (persisted db (revoke_session now id db))) ≡ none
revoke_session-invalid now id later s rs db f l =
    serve_all-invalid id later rs (persisted db (revoke_session now id db))
      (revoke_session-IsRevoked now id s db f l)
