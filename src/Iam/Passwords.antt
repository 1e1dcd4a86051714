-- ===== src/Iam/Passwords.antt =====
-- A password that was set admits its user.
use arbiter_ai.Base.{
  suc, String, ◌≡◌, refl, ap, true, false, Option, none, some, List, [], ◌∷◌, ◌++◌, ◌==◌, eqb,
  if◌then◌else◌, Bool-cases, Option-cases, inl, inr, arith, eq_refl, member,
}
use arbiter_ai.Values.{Runtime}
use arbiter_ai.Iam.{
  User, Accounts, Hash, Identity, created, find_user, update_user, new_user, with_password,
  create_user, set_password, authenticate_user, authenticate, roles,
}

module _ {F : Type 0} where
  -- An update of the row that a name finds is what the name finds after it.
  pub find_user-update_user :
      (name : String) (f : User F → User F) (u : User F) (users : List (User F))
      → ((v : User F) → (f v).username ≡ v.username)
      → find_user name users ≡ some u
      → find_user name (update_user u.id f users) ≡ some (f u)
  unfolding find_user update_user
  find_user-update_user name f u [] keeps h = absurd (cc)
  find_user-update_user name f u (v ∷ rest) keeps h = elim (Bool-cases (v.username == name)) [
    | inl here ↦
        let same : v ≡ u = ground (arith, here, h) in
        ground (arith, here, same, keeps v, ap (λ w. w.id) same, ap f same)
    | inr later ↦
        let ih = find_user-update_user name f u rest keeps (rw later at h) in
        elim (Bool-cases (eqb v.id u.id)) [
          | inl hit ↦ rw (hit, keeps v, later) ih
          | inr miss ↦ rw (miss, later) ih
        ]
  ]

  find_user-append :
      (name : String) (u : User F) (users : List (User F))
      → u.username ≡ name
      → find_user name users ≡ none
      → find_user name (users ++ (u ∷ [])) ≡ some u
  unfolding find_user
  find_user-append name u [] here h = rw (here, eq_refl name)
  find_user-append name u (v ∷ rest) here h = elim (Bool-cases (v.username == name)) [
    | inl taken ↦ absurd (cc (rw taken at h))
    | inr other ↦ rw other (find_user-append name u rest here (rw other at h))
  ]

module _ {F : Type 0} ⦃py : Runtime F⦄ (hash : Hash) (clock later : F) (now : String) where
  -- what a login gives on a row with a password and no lock
  abbrev pub admitted : String → String → String → User F → Option Identity
  admitted password salt tried u =
      if hash password salt == hash tried salt
      then some (record { username = u.username; role = u.role })
      else none

  login-unlocked :
      (name password salt tried : String) (u : User F) (a : Accounts F)
      → py.lt clock (py.lit 0 1) ≡ false
      → find_user name a.users ≡ some u
      → u.locked_until ≡ py.lit 0 1
      → u.salt ≡ salt
      → u.pw_hash ≡ hash password salt
      → (authenticate hash clock later now name tried a).0 ≡ admitted password salt tried u
  unfolding authenticate authenticate_user
  login-unlocked name password salt tried u a past found free salted hashed =
      rw (found, authenticate, free, past, salted, hashed)
        (elim (Bool-cases (hash password salt == hash tried salt)) [
          | inl same ↦ rw same
          | inr other ↦ rw other
        ])

  -- After a password is set for a user, that user is admitted at any time that is not negative, with
  -- the same role and whatever lock or failures there were, by exactly those passwords that have the
  -- hash of the set one.
  set_password-authenticate :
      (name password salt tried : String) (u : User F) (a : Accounts F)
      → py.lt clock (py.lit 0 1) ≡ false
      → find_user name a.users ≡ some u
      → (authenticate hash clock later now name tried (set_password hash name password salt a).1).0
        ≡ admitted password salt tried u
  unfolding set_password
  set_password-authenticate name password salt tried u a past found =
      login-unlocked name password salt tried (with_password hash password salt u)
        (set_password hash name password salt a).1 past
        (rw (found, set_password)
          (find_user-update_user name (with_password hash password salt) u a.users (λ v. refl)
            found))
        refl refl refl

  -- A user can be created only with a known role and a new name. The user is then admitted, at any
  -- time that is not negative and in that role, by exactly those passwords that have the hash of the
  -- given one.
  pub create_user-authenticate :
      (name password role salt made tried : String) (a : Accounts F)
      → py.lt clock (py.lit 0 1) ≡ false
      → (create_user hash name password role salt made a).0 ≡ created
      → (member role roles ≡ true)
        × (find_user name a.users ≡ none)
        × ((authenticate hash clock later now name tried
              (create_user hash name password role salt made a).1).0
            ≡ (if hash password salt == hash tried salt
                then some (record { username = name; role = role })
                else none))
  unfolding create_user
  create_user-authenticate name password role salt made tried a past done =
      let u = new_user hash (suc a.last_id) name password role salt made in
      elim (Bool-cases (member role roles)) [
        | inr unknown ↦ absurd (ground (arith, unknown, done))
        | inl known ↦ elim (Option-cases (find_user name a.users)) [
          | inr (v, taken) ↦ absurd (ground (arith, known, taken, done))
          | inl fresh ↦ (
            known,
            fresh,
            login-unlocked name password salt tried u _ past
                (rw (known, fresh, create_user) (find_user-append name u a.users refl fresh)) refl
                refl refl,
          )
        ]
      ]
