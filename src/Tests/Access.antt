-- ===== src/Tests/Access.antt =====
-- Runs of the access control, and its theorems at concrete inputs.
use arbiter_ai.Base.{
  ℕ, ◌≡◌, ◌+◌, ◌<>◌, ◌==◌, refl, true, false, none, some, List, [], ◌∷◌, arith, if◌then◌else◌,
  member,
}
use arbiter_ai.Iam.{
  User, Accounts, Hash, Identity, created, bad_role, duplicate, create_user, unlock, is_locked,
  any_users, authenticate, accounts_run, find_user, roles,
}
use arbiter_ai.Iam.Lockout.{Attempt, attempt, attempts, Wrong, attempts-lockout}
use arbiter_ai.Iam.Passwords.{create_user-authenticate}
use arbiter_ai.Iam.Sessions.{
  Codec, Signed, at_dot, issue_session, verify_session, verify-issue_session, verify_session-Signed,
  sessions_run,
}
use arbiter_ai.Tests.Fixtures.{thousandths}

abbrev salted : Hash
salted password salt = salt <> password

abbrev ada : User ℕ
ada = record {
  id = 1;
  username = "ada";
  role = "admin";
  salt = "s";
  pw_hash = "spw";
  created_at = "t";
  last_login = none;
  failed = 0;
  locked_until = 0;
}

abbrev accounts : Accounts ℕ
accounts = record { users = ada ∷ []; last_id = 1 }

abbrev guess : ℕ → Attempt ℕ
guess t = record { clock = t; later = t; now = "n"; password = "x" }

abbrev entry : Attempt ℕ
entry = record (guess 200000) { password = "pw" }

abbrev guesses : List (Attempt ℕ)
guesses = guess 10 ∷ guess 20 ∷ guess 30 ∷ guess 40 ∷ []

ada-found : find_user "ada" accounts.users ≡ some ada
unfolding accounts_run
ada-found = refl

accounts_runs :
    ((authenticate salted 9 9 "n" "ada" "pw" accounts).0
      ≡ some (record { username = "ada"; role = "admin" }))
    × ((authenticate salted 9 9 "n" "bob" "pw" accounts).0 ≡ none)
    × ((create_user salted "ada" "q" "analyst" "z" "t" accounts).0 ≡ duplicate)
    × ((create_user salted "bob" "q" "owner" "z" "t" accounts).0 ≡ bad_role)
    × ((create_user salted "bob" "q" "analyst" "z" "t" accounts).0 ≡ created)
    × (is_locked "ada" 60
          (attempt salted "ada" (guess 50) (attempts salted "ada" guesses accounts)).1
        ≡ true)
    × ((unlock "eve" accounts).0 ≡ false)
    × (any_users accounts ≡ true)
unfolding accounts_run
accounts_runs = (refl, refl, refl, refl, refl, refl, refl, refl)

guess-Wrong : (t : ℕ) → Wrong salted "ada" ada (guess t)
guess-Wrong t = record { refused = refl; timely = ground arith }

attempts-lockout_example :
    let locked = (attempt salted "ada" (guess 50) (attempts salted "ada" guesses accounts)).1 in
    attempt salted "ada" entry locked ≡ (none, locked)
attempts-lockout_example =
    attempts-lockout salted "ada" guesses (guess 50) entry ada accounts ada-found refl refl
      (guess-Wrong 10, (guess-Wrong 20, (guess-Wrong 30, (guess-Wrong 40, tt)))) (guess-Wrong 50)
      refl

bob-created : (create_user salted "bob" "q" "analyst" "z" "t" accounts).0 ≡ created
unfolding accounts_run
bob-created = refl

create_user-authenticate_example :
    (member "analyst" roles ≡ true)
    × (find_user "bob" accounts.users ≡ none)
    × ((authenticate salted 9 9 "n" "bob" "q"
          (create_user salted "bob" "q" "analyst" "z" "t" accounts).1).0
        ≡ (if salted "q" "z" == salted "q" "z"
            then some (record { username = "bob"; role = "analyst" })
            else none))
create_user-authenticate_example =
    create_user-authenticate salted 9 9 "n" "bob" "q" "analyst" "z" "t" "q" accounts refl
      bob-created

abbrev codec : Codec
codec = record {
  encode = λ s. s.username;
  decode = λ body. some (record { username = body; role = "admin"; expires = 28810 });
  sign = λ secret body. secret <> body;
}

abbrev ada_identity : Identity
ada_identity = record { username = "ada"; role = "admin" }

cookie_runs :
    (issue_session codec "k" 10 ada_identity ≡ "ada.kada")
    × (verify_session {F = ℕ} codec "k" 20000000 "ada.kada" ≡ some ada_identity)
    × (verify_session {F = ℕ} codec "k" 29000000 "ada.kada" ≡ none)
    × (verify_session {F = ℕ} codec "k" 20000000 "ada.xada" ≡ none)
    × (verify_session {F = ℕ} codec "k" 20000000 "ada" ≡ none)
unfolding sessions_run
cookie_runs = (refl, refl, refl, refl, refl)

ada-dotless : at_dot "ada" ≡ none
unfolding sessions_run
ada-dotless = refl

verify-issue_session_example :
    verify_session {F = ℕ} codec "k" 20000000 (issue_session codec "k" 10 ada_identity)
    ≡ (if thousandths.lt (thousandths.lit (10 + 28800) 1) 20000000 then none else some ada_identity)
verify-issue_session_example =
    verify-issue_session {F = ℕ} codec "k" 20000000 10 ada_identity refl ada-dotless

verify_session-Signed_example : Signed {F = ℕ} codec "k" 20000000 (at_dot "ada.kada") ada_identity
verify_session-Signed_example =
    verify_session-Signed {F = ℕ} codec "k" 20000000 "ada.kada" ada_identity cookie_runs.1
