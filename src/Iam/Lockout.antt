-- ===== src/Iam/Lockout.antt =====
-- Five wrong passwords in a row lock an account.
use arbiter_ai.Base.{
  ℕ, ◌+◌, ◌<◌, String, ◌≡◌, refl, true, false, Option, none, some, List, [], ◌∷◌, All, All-map,
  arith, length,
}
use arbiter_ai.Values.{Runtime}
use arbiter_ai.Iam.{
  User, Accounts, Hash, Identity, find_user, missed, is_admitted, authenticate_user, authenticate,
}
use arbiter_ai.Iam.Passwords.{find_user-update_user}

-- A login: the two readings of the clock, the time stamp and the password.
pub record Attempt (F : Type 0) : Type 0 where
  pub clock : F
  pub later : F
  pub now : String
  pub password : String

module _ {F : Type 0} ⦃py : Runtime F⦄ (hash : Hash) (name : String) where
  abbrev pub attempt : Attempt F → Accounts F → Option Identity × Accounts F
  attempt t a = authenticate hash t.clock t.later t.now name t.password a

  abbrev pub attempts : List (Attempt F) → Accounts F → Accounts F
  attempts [] a = a
  attempts (t ∷ ts) a = attempts ts (attempt t a).1

  -- a wrong password for the row, at a time that is not negative
  pub record Wrong (u : User F) (t : Attempt F) : Type 0 where
    pub refused : is_admitted hash t.password u ≡ false
    pub timely : py.lt t.clock (py.lit 0 1) ≡ false

  -- a row that a run of wrong passwords left, `n` failures on, without a lock
  record Failing (u : User F) (n : ℕ) (a : Accounts F) : Type 0 where
    row : User F
    found : find_user name a.users ≡ some row
    free : row.locked_until ≡ py.lit 0 1
    failures : row.failed ≡ u.failed + n
    same_salt : row.salt ≡ u.salt
    same_hash : row.pw_hash ≡ u.pw_hash

  -- a wrong password is counted on the row
  find_user-attempt :
      (u : User F) (a : Accounts F) (t : Attempt F)
      → find_user name a.users ≡ some u
      → u.locked_until ≡ py.lit 0 1
      → Wrong u t
      → find_user name (attempt t a).1.users ≡ some (missed t.later u)
  unfolding authenticate authenticate_user
  find_user-attempt u a t found free w =
      rw (found, authenticate, free, w.timely, w.refused)
        (find_user-update_user name (missed t.later) u a.users (λ v. refl) found)

  attempts-Failing :
      (ts : List (Attempt F)) (u : User F) (a : Accounts F)
      → find_user name a.users ≡ some u
      → u.locked_until ≡ py.lit 0 1
      → All (Wrong u) ts
      → u.failed + length ts < 5
      → Failing u (length ts) (attempts ts a)
  attempts-Failing [] u a found free w few = record {
    row = u;
    found = found;
    free = free;
    failures = omega arith;
    same_salt = refl;
    same_hash = refl;
  }
  attempts-Failing (t ∷ ts) u a found free w few =
      let still : (missed t.later u).locked_until ≡ py.lit 0 1 = ground (arith, few) in
      let rest =
        attempts-Failing ts (missed t.later u) (attempt t a).1
          (find_user-attempt u a t found free w.0) still
          (All-map (λ x v. record { refused = v.refused; timely = v.timely }) ts w.1)
          (omega (arith, few)) in
      record {
        row = rest.row;
        found = rest.found;
        free = rest.free;
        failures = omega (arith, rest.failures);
        same_salt = rest.same_salt;
        same_hash = rest.same_hash;
      }

  -- After wrong passwords in a row, at times that are not negative, that bring an unlocked account to five failures the account is
  -- locked: until 300 seconds after the last one, no password is admitted and nothing changes.
  pub attempts-lockout :
      (ts : List (Attempt F)) (fifth probe : Attempt F) (u : User F) (a : Accounts F)
      → find_user name a.users ≡ some u
      → u.locked_until ≡ py.lit 0 1
      → u.failed + length ts ≡ 4
      → All (Wrong u) ts
      → Wrong u fifth
      → py.lt probe.clock (py.add fifth.later (py.lit 300 1)) ≡ true
      → let locked = (attempt fifth (attempts ts a)).1 in attempt probe locked ≡ (none, locked)
  unfolding authenticate authenticate_user
  attempts-lockout ts fifth probe u a found free four ws w early =
      let f = attempts-Failing ts u a found free ws (omega (arith, four)) in
      let w' : Wrong f.row fifth = record {
        refused = rw (f.same_salt, f.same_hash) w.refused;
        timely = w.timely;
      } in
      let found' = find_user-attempt f.row (attempts ts a) fifth f.found f.free w' in
      let last : (missed fifth.later f.row).locked_until ≡ py.add fifth.later (py.lit 300 1) =
        ground (arith, four, f.failures) in
      rw (found', authenticate, last, early)
