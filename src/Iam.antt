-- ===== src/Iam.antt =====
-- arbiter/iam.py: local accounts with a lockout. The password hash (scrypt), the clock and the random
-- salt are parameters; bytes are texts.
pub mod Lockout
pub mod Passwords
pub mod Sessions
use arbiter_ai.Base.{
  ℕ, suc, ◌+◌, String, Bool, true, false, not, ◌&&◌, Option, none, some, List, [], ◌∷◌, ◌++◌, ◌==◌,
  map, eqb, leb, if◌then◌else◌, find_first, member, any,
}
use arbiter_ai.Values.{Runtime}

abbrev pub max_failed : ℕ
max_failed = 5

abbrev pub lockout_seconds : ℕ
lockout_seconds = 300

abbrev pub roles : List String
roles = "analyst" ∷ "admin" ∷ []

-- a row of `users`
pub record User (F : Type 0) : Type 0 where
  pub id : ℕ
  pub username : String
  pub role : String
  pub salt : String
  pub pw_hash : String
  pub created_at : String
  pub last_login : Option String
  pub failed : ℕ
  pub locked_until : F

-- The table, with the last id that `AUTOINCREMENT` gave.
pub record Accounts (F : Type 0) : Type 0 where
  pub users : List (User F)
  pub last_id : ℕ

-- `_hash`: password and salt
abbrev pub Hash : Type 0
Hash = String → String → String

-- What `create_user` does: it returns, or raises a ValueError or an IntegrityError.
pub data CreateResult : Type 0 where
  created bad_role duplicate : CreateResult

pub record Identity : Type 0 where
  pub username : String
  pub role : String

module _ {F : Type 0} where
  -- `SELECT ... WHERE username=?`
  unfoldable pub find_user : String → List (User F) → Option (User F)
  find_user name [] = none
  find_user name (u ∷ rest) = if u.username == name then some u else find_user name rest

  -- `UPDATE users SET ... WHERE id=?`
  unfoldable pub update_user : ℕ → (User F → User F) → List (User F) → List (User F)
  update_user id f [] = []
  update_user id f (u ∷ rest) = (if eqb u.id id then f u else u) ∷ update_user id f rest

  unfoldable pub any_users : Accounts F → Bool
  any_users a = elim a.users [ [] ↦ false | u ∷ rest ↦ true ]

module _ {F : Type 0} ⦃py : Runtime F⦄ where
  -- the row without failures and lock
  abbrev pub cleared : User F → User F
  cleared u = record u { failed = 0; locked_until = py.lit 0 1 }

  abbrev pub with_password : Hash → String → String → User F → User F
  with_password hash password salt u = record (cleared u) {
    salt = salt;
    pw_hash = hash password salt;
  }

  abbrev pub is_admitted : Hash → String → User F → Bool
  is_admitted hash password u = u.pw_hash == hash password u.salt

  -- `row["locked_until"] > time.time()`
  abbrev pub locked_at : F → User F → Bool
  locked_at clock u = py.lt clock u.locked_until

  -- the row of a new user
  abbrev pub new_user : Hash → ℕ → String → String → String → String → String → User F
  new_user hash id name password role salt now = record {
    id = id;
    username = name;
    role = role;
    salt = salt;
    pw_hash = hash password salt;
    created_at = now;
    last_login = none;
    failed = 0;
    locked_until = py.lit 0 1;
  }

  unfoldable pub create_user :
      Hash → String → String → String → String → String → Accounts F → CreateResult × Accounts F
  create_user hash name password role salt now a =
      let u = new_user hash (suc a.last_id) name password role salt now in
      if not (member role roles) then (bad_role, a) else elim (find_user name a.users) [
        | some taken ↦ (duplicate, a)
        | none ↦ (created, record { users = a.users ++ (u ∷ []); last_id = suc a.last_id })
      ]

  unfoldable pub set_password : Hash → String → String → String → Accounts F → Bool × Accounts F
  set_password hash name password salt a = elim (find_user name a.users) [
    | none ↦ (false, a)
    | some u ↦
        (true, record a { users = update_user u.id (with_password hash password salt) a.users })
  ]

  -- `unlock`: an update by name, which tells whether it met a row
  unfoldable pub unlock : String → Accounts F → Bool × Accounts F
  unlock name a = (
    any (λ u. u.username == name) a.users,
    record a { users = map (λ u. if u.username == name then cleared u else u) a.users },
  )

  unfoldable pub is_locked : String → F → Accounts F → Bool
  is_locked name clock a = elim (find_user name a.users) [
    | none ↦ false
    | some u ↦ locked_at clock u
  ]

  -- the row after a login, at a time
  abbrev pub logged_in : String → User F → User F
  logged_in now u = record (cleared u) { last_login = some now }

  -- the row after a wrong password, at a time
  abbrev pub missed : F → User F → User F
  missed clock u = record u {
    failed = u.failed + 1;
    locked_until =
        if leb max_failed (u.failed + 1)
        then py.add clock (py.lit lockout_seconds 1)
        else py.lit 0 1;
  }

  -- `authenticate` on the row that it found. It reads the clock twice on a wrong password.
  pub authenticate_user :
      Hash → F → F → String → String → User F → Accounts F → Option Identity × Accounts F
  authenticate_user hash clock later now password u a =
      if locked_at clock u
      then (none, a)
      else if is_admitted hash password u
      then (
        some (record { username = u.username; role = u.role }),
        record a { users = update_user u.id (logged_in now) a.users },
      )
      else (none, record a { users = update_user u.id (missed later) a.users })

  unfoldable pub authenticate :
      Hash → F → F → String → String → String → Accounts F → Option Identity × Accounts F
  unfolding authenticate_user
  authenticate hash clock later now name password a = elim (find_user name a.users) [
    | none ↦ (none, a)
    | some u ↦ authenticate_user hash clock later now password u a
  ]

-- what a run over the accounts computes with
unfoldable pub accounts_run : Unit {0}
unfolding find_user update_user any_users create_user set_password unlock is_locked
    authenticate_user authenticate
accounts_run = tt
