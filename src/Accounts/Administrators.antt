-- ===== src/Accounts/Administrators.antt =====
-- There is always an active administrator.
use doc_grading.Prelude.{
  ℕ, ap, ◌∙◌, String, ◌≡◌, refl, Bool, true, false, not, ◌&&◌, ◌||◌, Option, some, List, [], ◌∷◌,
  find, put, arith, Bool-cases, inl, inr, ◌==◌, ==_iff, or_else, Table,
}
use doc_grading.Models.Enums.{UserRole, UserStatus, has_role, is_admin, is_teacher, is_student}
use doc_grading.Models.Rows.{User}
use doc_grading.Models.Db.{Db}
use doc_grading.Models.Tx.{tx, pure}
use doc_grading.Models.Ensures.{Ensures}
use doc_grading.Models.Hoare.{Ensures-guard, Ensures-lookup, Ensures-gets}
use doc_grading.Models.Reads.{Ensures-seq}
use doc_grading.Audit.{record_audit}
use doc_grading.Accounts.{
  update_user, store_user, put_user, audit_roles, audit_status, UserUpdate, changed_user,
  has_other_admin, is_active_admin, roles_after, same_roles, same_status, eq_bool, cons_role,
}

-- some user of the table is an active administrator
unfoldable pub has_admin : Table User → Bool
has_admin [] = false
has_admin ((_, u) ∷ t) = is_active_admin u.roles u.status || has_admin t

put-admin :
    (id : ℕ) (v : User) (t : Table User)
    → is_active_admin v.roles v.status ≡ true
    → has_admin (put id v t) ≡ true
unfolding has_admin put
put-admin id v [] a = rw a refl
put-admin id v ((j, w) ∷ t) a = elim (Bool-cases (id == j)) [
  | inl e ↦ rw (e, a) refl
  | inr e ↦ rw (e, put-admin id v t a) (ground arith)
]

other-admin : (id : ℕ) (t : Table User) → has_other_admin id t ≡ true → has_admin t ≡ true
unfolding has_admin has_other_admin
other-admin id [] h = ground arith
other-admin id ((j, w) ∷ t) h = ground (arith, other-admin id t)

put-other :
    (id : ℕ) (v : User) (t : Table User)
    → has_other_admin id t ≡ true
    → has_admin (put id v t) ≡ true
unfolding has_admin has_other_admin put
put-other id v [] h = ground arith
put-other id v ((j, w) ∷ t) h = elim (Bool-cases (id == j)) [
  | inl e ↦ rw e (ground (arith, other-admin id t, ==_iff id j, ==_iff j id))
  | inr e ↦ rw e (ground (arith, put-other id v t))
]

put-former :
    (id : ℕ) (u v : User) (t : Table User)
    → find id t ≡ some u
    → is_active_admin u.roles u.status ≡ false
    → has_admin t ≡ true
    → has_admin (put id v t) ≡ true
unfolding has_admin find put
put-former id u v [] f a h = ground arith
put-former id u v ((j, w) ∷ t) f a h = elim (Bool-cases (id == j)) [
  | inl e ↦ rw e (ground arith)
  | inr e ↦ rw e (ground (arith, put-former id u v t))
]

canonical_lem :
    (a b c : Bool)
    → has_role is_admin (
        cons_role a UserRole.admin (cons_role b UserRole.teacher (cons_role c UserRole.student [])))
      ≡ a
canonical_lem true b c = refl
canonical_lem false true true = refl
canonical_lem false true false = refl
canonical_lem false false true = refl
canonical_lem false false false = refl

eq_bool-equal : (a b : Bool) → eq_bool a b ≡ true → a ≡ b
eq_bool-equal true b e = ground arith
eq_bool-equal false b e = ground arith

after-admin :
    (old requested : List UserRole)
    → has_role is_admin (roles_after old requested) ≡ has_role is_admin requested
after-admin old requested = elim (Bool-cases (same_roles old requested)) [
  | inl h ↦
      rw h (eq_bool-equal (has_role is_admin old) (has_role is_admin requested) (ground arith))
  | inr h ↦ rw h (
      canonical_lem (has_role is_admin requested) (has_role is_teacher requested)
        (has_role is_student requested))
]

-- what the guard of the last administrator leaves
guarded :
    (id : ℕ) (u : User) (roles : List UserRole) (status : UserStatus) (t : Table User)
    → find id t ≡ some u
    → has_admin t ≡ true
    → (is_active_admin u.roles u.status
        && not (is_active_admin roles status)
        && not (has_other_admin id t))
      ≡ false
    → has_admin (put id (changed_user roles status u) t) ≡ true
guarded id u roles status t f h g = elim (Bool-cases (is_active_admin roles status)) [
  | inl a ↦ put-admin id _ t (ground (arith, after-admin u.roles roles))
  | inr a ↦ elim (Bool-cases (is_active_admin u.roles u.status)) [
    | inl b ↦ put-other id _ t (ground arith)
    | inr b ↦ put-former id u _ t f b h
  ]
]

audit_roles-keeps :
    (actor id : ℕ) (old requested : List UserRole) (reason : String) (db : Db)
    → Ensures (λ _ db'. db'.users ≡ db.users) (audit_roles actor id old requested reason db)
unfolding audit_roles record_audit tx
audit_roles-keeps actor id old requested reason db = elim (Bool-cases (same_roles old requested)) [
  | inl a ↦ rw a refl
  | inr a ↦ rw a refl
]

audit_status-keeps :
    (actor id : ℕ) (old requested : UserStatus) (reason : String) (db : Db)
    → Ensures (λ _ db'. db'.users ≡ db.users) (audit_status actor id old requested reason db)
unfolding audit_status record_audit tx
audit_status-keeps actor id old requested reason db =
    elim (Bool-cases (same_status old requested)) [ inl a ↦ rw a refl | inr a ↦ rw a refl ]

put_user-puts :
    (id : ℕ) (u : User) (db : Db)
    → Ensures (λ _ db'. db'.users ≡ put id u db.users) (put_user id u db)
unfolding put_user tx
put_user-puts id u db = refl

stored :
    (actor id : ℕ) (u : User) (roles : List UserRole) (status : UserStatus) (reason : String)
    (db : Db)
    → has_admin (put id (changed_user roles status u) db.users) ≡ true
    → Ensures (λ _ db'. has_admin db'.users ≡ true) (store_user actor id u roles status reason db)
unfolding store_user pure
stored actor id u roles status reason db h =
    Ensures-seq P Q _ _ db (put_user-puts id (changed_user roles status u) db) (λ _ a p.
      Ensures-seq (λ _ d. d.users ≡ a.users) Q _ _ a (audit_roles-keeps actor id _ _ reason a)
        (λ _ b q.
          Ensures-seq (λ _ d. d.users ≡ b.users) Q _ _ b (audit_status-keeps actor id _ _ reason b)
            (λ _ c r. ap has_admin (r ∙ q ∙ p) ∙ h)))
  where
    P : Unit {0} → Db → Type 0
    P _ d = d.users ≡ put id (changed_user roles status u) db.users

    Q : User → Db → Type 0
    Q _ d = has_admin d.users ≡ true

-- If some user is an active administrator, then this is so when an update of a user has
-- returned.
pub has_admin-update_user :
    (id : ℕ) (body : UserUpdate) (actor : ℕ) (expected_revision : Option ℕ) (db : Db)
    → has_admin db.users ≡ true
    → Ensures (λ _ db'. has_admin db'.users ≡ true) (update_user id body actor expected_revision db)
unfolding update_user pure
has_admin-update_user id body actor expected_revision db h = Ensures-lookup Q _ _ _ db (λ u f.
    Ensures-guard Q _ _ _ db (λ _. Ensures-guard Q _ _ _ db (λ _. Ensures-gets Q _ _ db (
      Ensures-guard Q _ _ _ db (λ g.
        elim (Bool-cases (
          same_roles u.roles (or_else body.roles u.roles)
          && same_status u.status (or_else body.status u.status))) [
            | inl e ↦ rw e h
            | inr e ↦ rw e (
                stored actor id u _ _ body.reason db
                  (guarded id u (or_else body.roles u.roles) _ db.users f h g))
          ])))))
  where
    Q : User → Db → Type 0
    Q _ db' = has_admin db'.users ≡ true
