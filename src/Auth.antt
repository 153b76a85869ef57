-- ===== src/Auth.antt =====
-- The console's sign-in: web/src/lib/auth/session.ts, web/src/app/login/actions.ts. A text is
-- the list of its UTF-16 codes. The cookie is the browser's, which the functions take and return.
pub mod Tokens
pub mod Routes
pub mod Redirects
use attesta_ai_powered_soc.Prelude.{
  ℕ, zero, suc, ◌+◌, ◌≤◌, ◌≡◌, ◌≢◌, Bool, true, false, Option, none, some, List, [], ◌∷◌, ◌++◌,
  ◌&&◌, ◌||◌, not, ◌⊎◌, inl, inr, All, ◌==◌, leb, any, if◌then◌else◌,
}

abbrev pub Text : Type 0
Text = List ℕ

abbrev pub dot : ℕ
dot = 46

abbrev pub slash : ℕ
slash = 47

abbrev pub text_beq : Text → Text → Bool
text_beq [] [] = true
text_beq [] (d ∷ ds) = false
text_beq (c ∷ cs) [] = false
text_beq (c ∷ cs) (d ∷ ds) = if c == d then text_beq cs ds else false

pub data Role : Type 0 where
  analyst senior engineer admin auditor : Role

-- "analyst", "senior", "engineer", "admin" and "auditor"
abbrev pub role_text : Role → Text
role_text analyst = 97 ∷ 110 ∷ 97 ∷ 108 ∷ 121 ∷ 115 ∷ 116 ∷ []
role_text senior = 115 ∷ 101 ∷ 110 ∷ 105 ∷ 111 ∷ 114 ∷ []
role_text engineer = 101 ∷ 110 ∷ 103 ∷ 105 ∷ 110 ∷ 101 ∷ 101 ∷ 114 ∷ []
role_text admin = 97 ∷ 100 ∷ 109 ∷ 105 ∷ 110 ∷ []
role_text auditor = 97 ∷ 117 ∷ 100 ∷ 105 ∷ 116 ∷ 111 ∷ 114 ∷ []

abbrev pub first_role : List Role → Text → Option Role
first_role [] text = none
first_role (role ∷ roles) text =
    if text_beq (role_text role) text then some role else first_role roles text

-- `ROLES.includes(role)`, with the role that it is
unfoldable pub role_of : Text → Option Role
role_of text = first_role (analyst ∷ senior ∷ engineer ∷ admin ∷ auditor ∷ []) text

-- `issuedAt` is not checked when a token is read: `none` when it is missing or no number.
pub record Session : Type 0 where
  pub email : Text
  pub role : Role
  pub issued_at : Option ℕ

-- What `decode` reads of a parsed payload: its `email` and its `role` where they are strings.
pub record Parsed : Type 0 where
  pub email : Option Text
  pub role : Option Text
  pub issued_at : Option ℕ

-- node:crypto, Buffer and JSON. `payload_of` is `Buffer.from(JSON.stringify(session))` in base64url,
-- `parse` reads it back (`none` when it throws) and `sign` is the HMAC in base64url, whose alphabet
-- has no dot.
pub record Signing : Type 0 where
  pub sign : Text → Text
  pub sign_some : (payload : Text) → sign payload ≢ []
  pub sign_no_dot : (payload : Text) → All (λ c. c ≢ dot) (sign payload)
  pub payload_of : Session → Text
  pub payload_some : (session : Session) → payload_of session ≢ []
  pub payload_no_dot : (session : Session) → All (λ c. c ≢ dot) (payload_of session)
  pub parse : Text → Option Parsed
  pub parse-payload_of :
      (session : Session)
      → parse (payload_of session)
        ≡ some (record {
          email = some session.email;
          role = some (role_text session.role);
          issued_at = session.issued_at;
        })

abbrev cons_first : ℕ → List Text → List Text
cons_first c [] = (c ∷ []) ∷ []
cons_first c (piece ∷ pieces) = (c ∷ piece) ∷ pieces

-- `text.split(".")`
unfoldable pub split_dot : Text → List Text
split_dot [] = [] ∷ []
split_dot (c ∷ cs) = if c == dot then [] ∷ split_dot cs else cons_first c (split_dot cs)

abbrev pub is_empty : Text → Bool
is_empty [] = true
is_empty (c ∷ cs) = false

abbrev pub checked : Option Text → Option Text → Option ℕ → Option Session
checked none role issued_at = none
checked (some email) none issued_at = none
checked (some email) (some text) issued_at = elim (role_of text) [
  | none ↦ none
  | some role ↦ some (record { email = email; role = role; issued_at = issued_at })
]

abbrev pub session_of : Option Parsed → Option Session
session_of none = none
session_of (some parsed) = checked parsed.email parsed.role parsed.issued_at

module _ ⦃sg : Signing⦄ where
  unfoldable pub encode : Session → Text
  encode session = let payload = sg.payload_of session in payload ++ dot ∷ sg.sign payload

  -- The two lengths and the bytes are compared, which are equal exactly when the texts are.
  abbrev verified : Text → Text → Option Session
  verified payload signature =
      if is_empty payload || is_empty signature
      then none
      else if text_beq signature (sg.sign payload)
      then session_of (sg.parse payload)
      else none

  abbrev decoded : List Text → Option Session
  decoded [] = none
  decoded (payload ∷ []) = none
  decoded (payload ∷ signature ∷ more) = verified payload signature

  unfoldable pub decode : Text → Option Session
  unfolding split_dot role_of
  decode token = decoded (split_dot token)

  -- `getSession`, for the cookie that the request has
  unfoldable pub get_session : Option Text → Option Session
  unfolding decode
  get_session none = none
  get_session (some token) = if is_empty token then none else decode token

abbrev pub starts_with : Text → Text → Bool
starts_with text [] = true
starts_with [] (p ∷ prefix) = false
starts_with (c ∷ cs) (p ∷ prefix) = if c == p then starts_with cs prefix else false

-- "/login"
abbrev pub login_path : Text
login_path = slash ∷ 108 ∷ 111 ∷ 103 ∷ 105 ∷ 110 ∷ []

abbrev pub home_path : Text
home_path = slash ∷ []

-- The whitespace and the line ends that `trim` removes.
abbrev is_space : ℕ → Bool
is_space c =
    any (λ d. c == d)
      (9 ∷ 10 ∷ 11 ∷ 12 ∷ 13 ∷ 32 ∷ 160 ∷ 5760 ∷ 8232 ∷ 8233 ∷ 8239 ∷ 8287 ∷ 12288 ∷ 65279 ∷ [])
    || leb 8192 c && leb c 8202

abbrev pub trim_start : Text → Text
trim_start [] = []
trim_start (c ∷ cs) = if is_space c then trim_start cs else c ∷ cs

abbrev keep : ℕ → Text → Text
keep c [] = if is_space c then [] else c ∷ []
keep c (d ∷ ds) = c ∷ d ∷ ds

abbrev pub trim_end : Text → Text
trim_end [] = []
trim_end (c ∷ cs) = keep c (trim_end cs)

unfoldable pub trim : Text → Text
trim text = trim_end (trim_start text)

pub data SignIn : Type 0 where
  -- to "/login?error=invalid"
  refused : SignIn
  -- with a cookie, and where the browser goes
  accepted : Text → Text → SignIn

abbrev pub text_or : Option Text → Text → Text
text_or none default = default
text_or (some text) default = text

abbrev pub destination : Text → Text
destination from = if starts_with from home_path then from else home_path

abbrev pub signed : ⦃sg : Signing⦄ → Text → Text → Option Role → ℕ → SignIn
signed email from none now_ms = refused
signed email from (some role) now_ms =
    if is_empty email
    then refused
    else accepted (encode (record { email = email; role = role; issued_at = some now_ms }))
        (destination from)

-- `signIn`, for the form's three fields, where they are there
unfoldable pub sign_in : ⦃sg : Signing⦄ → Option Text → Option Text → Option Text → ℕ → SignIn
unfolding trim role_of
sign_in email role from now_ms =
    signed (trim (text_or email [])) (text_or from home_path) (role_of (text_or role [])) now_ms
