-- ===== src/Auth/Capacity.antt =====
-- The bounds of the table of failed attempts.
use doc_grading.Prelude.{
  ℕ, ◌+◌, ◌≤◌, ◌<◌, ◌≡◌, refl, Option, none, some, [], ◌∷◌, Table, find, put, length, leb, arith,
  Bool-cases, inl, inr, if◌then◌else◌, subst, find-put_self,
}
use doc_grading.Jobs.Defs.{seconds}
use doc_grading.Auth.Login.{Settings}
use doc_grading.Auth.Limiter.{
  Attempts, max_tracked, reserve_login_attempt, release_login_attempt, make_room, drop_expired,
  current, is_expired, drop_oldest, drop_if_full,
}

module _ {ℓ} {V : Type ℓ} where
  length-put : (k : ℕ) (v : V) (t : Table V) → length (put k v t) ≤ length t + 1
  unfolding put
  length-put k v [] = omega arith
  length-put k v ((j, w) ∷ t) = ground (arith, length-put k v t)

  length-put_known :
      (k : ℕ) (v w : V) (t : Table V) → find k t ≡ some w → length (put k v t) ≡ length t
  unfolding put find
  length-put_known k v w [] e = cc
  length-put_known k v w ((j, x) ∷ t) e = ground (arith, length-put_known k v w t)

length-drop_expired :
    (window now : ℕ) (t : Attempts) → length (drop_expired window now t) ≤ length t
unfolding drop_expired
length-drop_expired window now [] = omega arith
length-drop_expired window now ((ip, (started, count)) ∷ t) =
    ground (arith, length-drop_expired window now t)

length-drop_oldest : (t : Attempts) → 0 < length t → length (drop_oldest t) + 1 ≡ length t
length-drop_oldest [] h = omega arith
length-drop_oldest (_ ∷ t) h = omega arith

module _ (window now : ℕ) where
  length-drop_if_full :
      (t : Attempts) → length t ≤ max_tracked → length (drop_if_full t) < max_tracked
  length-drop_if_full t h = elim (Bool-cases (leb max_tracked (length t))) [
    | inl k ↦ rw k (omega (arith, length-drop_oldest t (ground arith)))
    | inr k ↦ rw k (ground arith)
  ]

  length-make_room :
      (t : Attempts) → length t ≤ max_tracked → length (make_room window now none t) < max_tracked
  unfolding make_room
  length-make_room t h = elim (Bool-cases (leb max_tracked (length t))) [
    | inl k ↦ rw k (
        length-drop_if_full (drop_expired window now t)
          (omega (arith, h, length-drop_expired window now t)))
    | inr k ↦ rw k (ground arith)
  ]

  room :
      (ip : ℕ) (entry : Option (ℕ × ℕ)) (v : ℕ × ℕ) (t : Attempts)
      → find ip t ≡ entry
      → length t ≤ max_tracked
      → length (put ip v (make_room window now entry t)) ≤ max_tracked
  unfolding make_room
  room ip (some entry) v t e h = omega (arith, h, length-put_known ip v entry t e)
  room ip none v t e h =
      omega (arith, length-make_room t h, length-put ip v (make_room window now none t))

-- The client's count in its window: one more of the window that runs, or the first of a window that
-- starts now.
pub data Counted (window now : ℕ) (entry : Option (ℕ × ℕ)) (started count : ℕ) : Type 0 where
  first : entry ≡ none → started ≡ now → count ≡ 1 → Counted window now entry started count
  after_window :
      (old n : ℕ)
      → entry ≡ some (old, n)
      → old + seconds window ≤ now
      → started ≡ now
      → count ≡ 1
      → Counted window now entry started count
  one_more :
      (old n : ℕ)
      → entry ≡ some (old, n)
      → now < old + seconds window
      → started ≡ old
      → count ≡ n + 1
      → Counted window now entry started count

-- What an attempt leaves when it is accepted, and why it is refused.
pub record IsReserved (s : Settings) (now ip : ℕ) (t t' : Attempts) : Type 0 where
  pub within : length t' ≤ max_tracked
  pub started : ℕ
  pub count : ℕ
  pub entry : find ip t' ≡ some (started, count)
  pub counted : Counted s.login_failure_window_seconds now (find ip t) started count
  pub limited : count ≤ s.login_ip_max_failed_attempts

pub record IsRefused (s : Settings) (now ip : ℕ) (t : Attempts) : Type 0 where
  pub started : ℕ
  pub count : ℕ
  pub counted : Counted s.login_failure_window_seconds now (find ip t) started (count + 1)
  pub over : s.login_ip_max_failed_attempts ≤ count

abbrev pub Reserved : Settings → ℕ → ℕ → Attempts → Option Attempts → Type 0
Reserved s now ip t none = IsRefused s now ip t
Reserved s now ip t (some t') = IsReserved s now ip t t'

current-Counted :
    (window now : ℕ) (entry : Option (ℕ × ℕ))
    → Counted window now entry (current window now entry).0 ((current window now entry).1 + 1)
current-Counted window now none = Counted.first refl refl refl
current-Counted window now (some (old, n)) = elim (Bool-cases (is_expired window now old)) [
  | inl h ↦ rw h (Counted.after_window old n refl (ground arith) refl refl)
  | inr h ↦ rw h (Counted.one_more old n refl (ground arith) refl refl)
]

-- From a table within its capacity, an attempt leaves a table within its capacity. It is counted as
-- one more of the client's window while this runs, and as the first of a window that starts now
-- otherwise; it is accepted with a count within the limit, or refused when the attempts before it in
-- the window have reached the limit.
pub reserve-IsReserved :
    (s : Settings) (now ip : ℕ) (t : Attempts)
    → length t ≤ max_tracked
    → Reserved s now ip t (reserve_login_attempt s now ip t)
unfolding reserve_login_attempt
reserve-IsReserved s now ip t h = from (current s.login_failure_window_seconds now (find ip t)) refl
  where
    counts :
        (started count : ℕ)
        → current s.login_failure_window_seconds now (find ip t) ≡ (started, count)
        → Counted s.login_failure_window_seconds now (find ip t) started (count + 1)
    counts started count e =
        subst (λ c. Counted s.login_failure_window_seconds now (find ip t) c.0 (c.1 + 1)) e
          (current-Counted s.login_failure_window_seconds now (find ip t))

    from :
        (c : ℕ × ℕ)
        → current s.login_failure_window_seconds now (find ip t) ≡ c
        → Reserved s now ip t (
            if leb s.login_ip_max_failed_attempts c.1
            then none
            else some (
                put ip (c.0, c.1 + 1) (make_room s.login_failure_window_seconds now (find ip t) t)))
    from (started, count) e = elim (Bool-cases (leb s.login_ip_max_failed_attempts count)) [
      | inl k ↦ rw k (record {
        started = started;
        count = count;
        counted = counts started count e;
        over = ground arith;
      })
      | inr k ↦ rw k (record {
        within = room s.login_failure_window_seconds now ip (find ip t) _ t refl h;
        started = started;
        count = count + 1;
        entry = find-put_self ip _ _;
        counted = counts started count e;
        limited = ground arith;
      })
    ]

-- If a client with a running window reserves an attempt and releases it, then its entry is what it
-- was.
pub release-reserve :
    (s : Settings) (now ip started count : ℕ) (t t' : Attempts)
    → reserve_login_attempt s now ip t ≡ some t'
    → find ip t ≡ some (started, count)
    → now < started + seconds s.login_failure_window_seconds
    → find ip (release_login_attempt ip t') ≡ some (started, count)
unfolding reserve_login_attempt release_login_attempt make_room
release-reserve s now ip started count t t' e f h = ground (
  arith,
  find-put_self ip (started, count + 1) t,
  find-put_self ip (started, count) (put ip (started, count + 1) t),
)
