-- ===== src/Iam/Sessions.antt =====
-- Session cookies of arbiter/iam.py: a payload and its HMAC. The encoding of the payload (JSON in
-- base64 without padding) and the HMAC are parameters.
use arbiter_ai.Base.{
  ℕ, ◌+◌, ◌*◌, String, ◌≡◌, refl, ap, ◌∙◌, false, Option, none, some, ◌==◌, ◌<>◌, eqb,
  if◌then◌else◌, Bool-cases, inl, inr, arith, eq_refl, eq_iff,
}
use Prim.Native.Char.{Char, code}
use Prim.Native.String.{char_at}
use text.Mathlib.TextLemmas.{nil-append, cons-append}
use arbiter_ai.Values.{Runtime}
use arbiter_ai.Iam.{Identity}

abbrev session_ttl : ℕ
session_ttl = 8 * 3600

-- the payload: user, role and the second at which it expires
pub record Session : Type 0 where
  pub username : String
  pub role : String
  pub expires : ℕ

-- What the cookies stand on. `decode` is `none` where the decoding raises.
pub record Codec : Type 0 where
  pub encode : Session → String
  pub decode : String → Option Session
  -- `hmac.new(secret, body, sha256).hexdigest()`
  pub sign : String → String → String

-- one more character in front of the body
abbrev longer : Char → Option (String × String) → Option (String × String)
longer c none = none
longer c (some (body, sig)) = some (String.◌∷◌ c body, sig)

-- `s.partition(".")` without the dot, if there is one
unfoldable pub at_dot : String → Option (String × String)
at_dot String.[] = none
at_dot (String.◌∷◌ c s) =
    let rest = at_dot s in if eqb (code c) b'.' then some ("", s) else longer c rest

-- the payload of a session that is issued at a whole second
abbrev pub session_of : ℕ → Identity → Session
session_of second user = record {
  username = user.username;
  role = user.role;
  expires = second + session_ttl;
}

-- `issue_session`, at a whole second
unfoldable pub issue_session : Codec → String → ℕ → Identity → String
issue_session codec secret second user =
    let body = codec.encode (session_of second user) in body <> ("." <> codec.sign secret body)

module _ {F : Type 0} ⦃py : Runtime F⦄ where
  -- a payload that was signed, at a time
  pub admit_session : F → Option Session → Option Identity
  admit_session clock none = none
  admit_session clock (some s) =
      if py.lt (py.lit s.expires 1) clock
      then none
      else some (record { username = s.username; role = s.role })

  pub check_parts : Codec → String → F → Option (String × String) → Option Identity
  unfolding admit_session
  check_parts codec secret clock none = none
  check_parts codec secret clock (some (body, sig)) =
      if sig == codec.sign secret body then admit_session clock (codec.decode body) else none

  unfoldable pub verify_session : Codec → String → F → String → Option Identity
  unfolding check_parts
  verify_session codec secret clock cookie = check_parts codec secret clock (at_dot cookie)

dot-cons : (sig : String) → "." <> sig ≡ String.◌∷◌ (char_at "." 0) sig
dot-cons sig =
    cons-append (char_at "." 0) String.[] sig ∙ ap (String.◌∷◌ (char_at "." 0)) (nil-append sig)

longer-none : (c : Char) (o : Option (String × String)) → longer c o ≡ none → o ≡ none
longer-none c none h = refl
longer-none c (some (body, sig)) h = absurd (cc)

at_dot-join :
    (body sig : String) → at_dot body ≡ none → at_dot (body <> ("." <> sig)) ≡ some (body, sig)
unfolding at_dot
at_dot-join String.[] sig h = rw (nil-append ("." <> sig), dot-cons sig)
at_dot-join (String.◌∷◌ c body) sig h = elim (Bool-cases (eqb (code c) b'.')) [
  | inl dot ↦ absurd (cc (rw dot at h))
  | inr plain ↦
      let shorter = longer-none c (at_dot body) (rw plain at h) in
      rw (cons-append c body ("." <> sig), at_dot, plain, at_dot-join body sig shorter)
]

module _ {F : Type 0} ⦃py : Runtime F⦄ (codec : Codec) (secret : String) where
  -- A cookie that was issued gives back its user and role until it expires, eight hours after the
  -- second of its issue, and nothing after that, where the encoding of the session can be
  -- decoded and has no dot.
  pub verify-issue_session :
      (clock : F) (second : ℕ) (user : Identity)
      → codec.decode (codec.encode (session_of second user)) ≡ some (session_of second user)
      → at_dot (codec.encode (session_of second user)) ≡ none
      → verify_session codec secret clock (issue_session codec secret second user)
        ≡ (if py.lt (py.lit (second + 28800) 1) clock then none else some user)
  unfolding verify_session issue_session admit_session
  verify-issue_session clock second user decodes dotless = rw (
    at_dot-join _ (codec.sign secret _) dotless,
    check_parts,
    eq_refl (codec.sign secret _),
    decodes,
  )

  -- an accepted payload under its signature
  abbrev pub Signed : F → Option (String × String) → Identity → Type 0
  Signed clock parts user =
      (body : String) × (s : Session) × (parts ≡ some (body, codec.sign secret body))
      × (codec.decode body ≡ some s)
      × (user ≡ record { username = s.username; role = s.role })
      × (py.lt (py.lit s.expires 1) clock ≡ false)

  admit-live :
      (clock : F) (o : Option Session) (user : Identity)
      → admit_session clock o ≡ some user
      → (s : Session) × (o ≡ some s)
        × (user ≡ record { username = s.username; role = s.role })
        × (py.lt (py.lit s.expires 1) clock ≡ false)
  unfolding admit_session
  admit-live clock none user h = absurd (cc)
  admit-live clock (some s) user h = elim (Bool-cases (py.lt (py.lit s.expires 1) clock)) [
    | inl late ↦ absurd (ground (arith, late, h))
    | inr live ↦ (s, refl, ground (arith, live, h), live)
  ]

  parts-Signed :
      (clock : F) (parts : Option (String × String)) (user : Identity)
      → check_parts codec secret clock parts ≡ some user
      → Signed clock parts user
  unfolding check_parts
  parts-Signed clock none user h = absurd (cc)
  parts-Signed clock (some (body, sig)) user h = elim (Bool-cases (sig == codec.sign secret body)) [
    | inr forged ↦ absurd (ground (arith, forged, h))
    | inl same ↦
        let (s, decoded, named, live) = admit-live clock (codec.decode body) user (rw same at h) in
        (body, s, ap (λ x. some (body, x)) ((eq_iff _ _).0 same), decoded, named, live)
  ]

  -- A cookie that is accepted is a body and its HMAC under the secret, and the body decodes to a
  -- session of that user and role which has not expired.
  pub verify_session-Signed :
      (clock : F) (cookie : String) (user : Identity)
      → verify_session codec secret clock cookie ≡ some user
      → Signed clock (at_dot cookie) user
  unfolding verify_session
  verify_session-Signed clock cookie user h = parts-Signed clock (at_dot cookie) user h

-- what a run over cookies computes with
unfoldable pub sessions_run : Unit {0}
unfolding at_dot issue_session admit_session check_parts verify_session
sessions_run = tt
