-- ===== src/Examples/Signing.antt =====
-- Examples of the theorems on the sign-in, for a signature that is a constant and a payload that is
-- the session's fields one after the other.
use attesta_ai_powered_soc.Prelude.{
  ℕ, ◌+◌, ◌-◌, ◌≡◌, refl, ◌≢◌, true, false, Option, none, some, List, [], ◌∷◌, map, All, inl, arith,
  ◌==◌, if◌then◌else◌,
}
use attesta_ai_powered_soc.Auth.{
  Text, dot, split_dot, Role, analyst, senior, engineer, admin, auditor, role_text, role_of,
  Session, Parsed, Signing, encode, decode, get_session, starts_with, home_path, trim, text_or,
  is_empty, session_of, sign_in, accepted,
}
use attesta_ai_powered_soc.Auth.Routes.{
  middleware, is_matched, is_console_path, console_page, serve, follow,
}
use attesta_ai_powered_soc.Auth.Tokens.{decode-encode, decode-signed}
use attesta_ai_powered_soc.Auth.Redirects.{follow-console_page, follow-none, sign_in-accepted}

-- Codes from 47 on, which are no dot.
abbrev shifted : Text → Text
shifted t = map (λ c. c + 47) t

abbrev unshifted : Text → Text
unshifted t = map (λ c. c - 47) t

unshifted-shifted : (t : Text) → unshifted (shifted t) ≡ t
unshifted-shifted [] = refl
unshifted-shifted (c ∷ cs) = ground (arith, unshifted-shifted cs)

shifted-no_dot : (t : Text) → All (λ c. c ≢ dot) (shifted t)
shifted-no_dot [] = tt
shifted-no_dot (c ∷ cs) = (λ e. absurd (omega (arith, e)), shifted-no_dot cs)

abbrev role_code : Role → ℕ
role_code analyst = 50
role_code senior = 51
role_code engineer = 52
role_code admin = 53
role_code auditor = 54

abbrev role_named : ℕ → Role
role_named code =
    if code == 50
    then analyst
    else if code == 51
    then senior
    else if code == 52
    then engineer
    else if code == 53
    then admin
    else auditor

role_named-role_code : (r : Role) → role_named (role_code r) ≡ r
role_named-role_code r = ground arith

role_code-no_dot : (r : Role) → role_code r ≢ dot
role_code-no_dot r = λ e. absurd (ground (arith, e))

abbrev time_code : Option ℕ → ℕ
time_code none = 1
time_code (some t) = t + 47

abbrev time_of : ℕ → Option ℕ
time_of code = if code == 1 then none else some (code - 47)

time_of-time_code : (t : Option ℕ) → time_of (time_code t) ≡ t
time_of-time_code t = ground arith

time_code-no_dot : (t : Option ℕ) → time_code t ≢ dot
time_code-no_dot t = λ e. absurd (ground (arith, e))

abbrev fields : Session → Text
fields s = role_code s.role ∷ time_code s.issued_at ∷ shifted s.email

abbrev read : Text → Option Parsed
read (r ∷ t ∷ email) = some (record {
  email = some (unshifted email);
  role = some (role_text (role_named r));
  issued_at = time_of t;
})
read _ = none

read-fields :
    (s : Session)
    → read (fields s)
      ≡ some
          (record { email = some s.email; role = some (role_text s.role); issued_at = s.issued_at })
read-fields s =
    rw (unshifted-shifted s.email, role_named-role_code s.role, time_of-time_code s.issued_at) refl

abbrev seal : Text
seal = 115 ∷ 101 ∷ []

seal-no_dot : All (λ c. c ≢ dot) seal
seal-no_dot = (λ e. absurd (omega (arith, e)), (λ e. absurd (omega (arith, e)), tt))

seal_some : seal ≢ []
seal_some = λ e. absurd (cc)

fields_some : (s : Session) → fields s ≢ []
fields_some s = λ e. absurd (cc)

instance abbrev signing : Signing
signing = record {
  sign = λ payload. seal;
  sign_some = λ payload. seal_some;
  sign_no_dot = λ payload. seal-no_dot;
  payload_of = fields;
  payload_some = fields_some;
  payload_no_dot = λ session. (
    role_code-no_dot session.role,
    (time_code-no_dot session.issued_at, shifted-no_dot session.email),
  );
  parse = read;
  parse-payload_of = read-fields;
}

abbrev an_auditor : Session
an_auditor = record { email = 97 ∷ dot ∷ []; role = auditor; issued_at = some 5 }

decode-encode_example : decode (encode an_auditor) ≡ some an_auditor
decode-encode_example = decode-encode an_auditor

decode-signed_example :
    (payload : Text) × (more : List Text) × (split_dot (encode an_auditor)
      ≡ payload ∷ signing.sign payload ∷ more)
    × (session_of (signing.parse payload) ≡ some an_auditor)
decode-signed_example = decode-signed (encode an_auditor) an_auditor (decode-encode an_auditor)

-- "/timeline"
abbrev timeline_path : Text
timeline_path = 47 ∷ 116 ∷ 105 ∷ 109 ∷ 101 ∷ 108 ∷ 105 ∷ 110 ∷ 101 ∷ []

timeline_is_console : is_console_path timeline_path ≡ true
unfolding is_console_path
timeline_is_console = refl

shown_lem : follow 1 (some (encode an_auditor)) timeline_path ≡ some (console_page an_auditor)
unfolding follow serve middleware is_matched is_console_path get_session decode split_dot role_of
    encode
shown_lem = refl

follow-console_page_example : get_session (some (encode an_auditor)) ≡ some an_auditor
follow-console_page_example =
    follow-console_page 1 (some (encode an_auditor)) timeline_path an_auditor shown_lem

stale_lem : get_session (some (120 ∷ dot ∷ 121 ∷ [])) ≡ none
unfolding get_session decode split_dot
stale_lem = refl

follow-none_example : follow 20 (some (120 ∷ dot ∷ 121 ∷ [])) timeline_path ≡ none
follow-none_example =
    follow-none 20 (120 ∷ dot ∷ 121 ∷ []) timeline_path stale_lem (inl timeline_is_console)

-- " a.", as an auditor, from a text that is no path
abbrev given_email : Option Text
given_email = some (32 ∷ 97 ∷ dot ∷ [])

accepted_lem :
    sign_in given_email (some (role_text auditor)) (some (120 ∷ [])) 5
    ≡ accepted (encode an_auditor) home_path
unfolding sign_in role_of trim
accepted_lem = refl

sign_in-accepted_example :
    (session : Session) × (get_session (some (encode an_auditor)) ≡ some session)
    × (session.email ≡ trim (text_or given_email []))
    × (is_empty session.email ≡ false)
    × (role_of (text_or (some (role_text auditor)) []) ≡ some session.role)
    × (starts_with home_path home_path ≡ true)
sign_in-accepted_example =
    sign_in-accepted given_email (some (role_text auditor)) (some (120 ∷ [])) 5 (encode an_auditor)
      home_path accepted_lem
