-- ===== src/Auth/Redirects.antt =====
-- Where a browser ends up: the middleware and the console's layout decide on different grounds.
use attesta_ai_powered_soc.Prelude.{
  ℕ, zero, suc, ◌≡◌, refl, ap, ◌∙◌, true, false, Option, none, some, List, [], ◌∷◌, ◌⊎◌, inl, inr,
  Bool-cases, All, any, ◌==◌, ==_iff, arith,
}
use attesta_ai_powered_soc.Auth.Tokens.{decode-encode, encode-is_empty}
use attesta_ai_powered_soc.Auth.{
  Text, text_beq, Session, Signing, get_session, starts_with, login_path, home_path, trim, role_of,
  sign_in, accepted, destination, text_or, Role, encode, is_empty, signed,
}
use attesta_ai_powered_soc.Auth.Routes.{
  Gate, to_login, to_home, pass, middleware, is_matched, is_console_path, console_paths, Page,
  console_page, has_cookie, layout_shows, rendered, gated, serve, follow,
}

accepted_token : {a b c d : Text} → accepted a b ≡ accepted c d → a ≡ c
accepted_token h = cc

accepted_to : {a b c d : Text} → accepted a b ≡ accepted c d → b ≡ d
accepted_to h = cc

text_beq-eq : (a b : Text) → text_beq a b ≡ true → a ≡ b
text_beq-eq [] [] h = refl
text_beq-eq [] (d ∷ ds) h = absurd (cc)
text_beq-eq (c ∷ cs) [] h = absurd (cc)
text_beq-eq (c ∷ cs) (d ∷ ds) h = elim (Bool-cases (c == d)) [
  | inl e ↦ let same = (==_iff c d).0 e in let rest = text_beq-eq cs ds (rw e at h) in cc
  | inr e ↦ let off = rw e at h in absurd (cc)
]

-- The middleware is run for the path and does not take it for the sign-in page.
abbrev IsOutside : Text → Type 0
IsOutside path = (is_matched path ≡ true) × (starts_with path login_path ≡ false)

any-IsOutside :
    (path : Text) (paths : List Text)
    → All IsOutside paths
    → any (text_beq path) paths ≡ true
    → IsOutside path
any-IsOutside path [] h e = absurd (cc)
any-IsOutside path (q ∷ qs) (hq, hs) e = elim (Bool-cases (text_beq path q)) [
  | inl equal ↦ rw (text_beq-eq path q equal) hq
  | inr other ↦ any-IsOutside path qs hs (rw other at e)
]

console-IsOutside : (path : Text) → is_console_path path ≡ true → IsOutside path
unfolding is_console_path is_matched
console-IsOutside path e =
    any-IsOutside path console_paths
      (
        (refl, refl),
        (
          (refl, refl),
          (
            (refl, refl),
            (
              (refl, refl),
              ((refl, refl), ((refl, refl), ((refl, refl), ((refl, refl), ((refl, refl), tt))))),
            ),
          ),
        ),
      )
      e

login-matched : (path : Text) → starts_with path login_path ≡ true → is_matched path ≡ true
unfolding is_matched
login-matched [] h = absurd (cc)
login-matched (c ∷ []) h = absurd (ground (arith, h))
login-matched (c ∷ d ∷ rest) h = ground (arith, h)

home_is_console : is_console_path home_path ≡ true
unfolding is_console_path
home_is_console = refl

module _ ⦃sg : Signing⦄ where
  layout-session :
      (o : Option Session) (session : Session)
      → layout_shows o ≡ inl (console_page session)
      → o ≡ some session
  layout-session none session h = absurd (cc)
  layout-session (some s) session h = cc

  rendered-session :
      (cookie : Option Text) (path : Text) (session : Session)
      → rendered cookie path ≡ inl (console_page session)
      → get_session cookie ≡ some session
  rendered-session cookie path session h = elim (Bool-cases (is_console_path path)) [
    | inl console ↦ layout-session (get_session cookie) session (rw console at h)
    | inr other ↦ elim (Bool-cases (text_beq path login_path)) [
      | inl login ↦ let e = rw (other, login) at h in absurd (cc)
      | inr missing ↦ let e = rw (other, missing) at h in absurd (cc)
    ]
  ]

  gated-session :
      (cookie : Option Text) (path : Text) (gate : Gate) (session : Session)
      → gated cookie path gate ≡ inl (console_page session)
      → get_session cookie ≡ some session
  gated-session cookie path (to_login from) session h = absurd (cc)
  gated-session cookie path to_home session h = absurd (cc)
  gated-session cookie path pass session h = rendered-session cookie path session h

  serve-session :
      (cookie : Option Text) (path : Text) (session : Session)
      → serve cookie path ≡ inl (console_page session)
      → get_session cookie ≡ some session
  unfolding serve
  serve-session cookie path session h = elim (Bool-cases (is_matched path)) [
    | inl matched ↦
        gated-session cookie path (middleware (has_cookie cookie) path) session (rw matched at h)
    | inr free ↦ rendered-session cookie path session (rw free at h)
  ]

  serve-cases :
      (o : Page ⊎ Text) → ((page : Page) × (o ≡ inl page)) ⊎ ((next : Text) × (o ≡ inr next))
  serve-cases (inl page) = inl (page, refl)
  serve-cases (inr next) = inr (next, refl)

  -- However many redirects are followed, from whatever path and with whatever cookie, a page of the
  -- console is only shown with the session that the cookie's token decodes to.
  pub follow-console_page :
      (n : ℕ) (cookie : Option Text) (path : Text) (session : Session)
      → follow n cookie path ≡ some (console_page session)
      → get_session cookie ≡ some session
  unfolding follow
  follow-console_page zero cookie path session h = absurd (cc)
  follow-console_page (suc n) cookie path session h = elim (serve-cases (serve cookie path)) [
    | inl (page, e) ↦
        let shown : some page ≡ some (console_page session) = rw (e, follow) at h in
        let same : page ≡ console_page session = cc in
        serve-session cookie path session (e ∙ ap inl same)
    | inr (next, e) ↦ follow-console_page n cookie next session (rw (e, follow) at h)
  ]

  serve-console :
      (token path : Text)
      → get_session (some token) ≡ none
      → is_console_path path ≡ true
      → serve (some token) path ≡ inr login_path
  unfolding serve middleware
  serve-console token path h console =
      let (matched, elsewhere) = console-IsOutside path console in
      rw (matched, elsewhere, console, h) refl

  serve-login :
      (token path : Text)
      → starts_with path login_path ≡ true
      → serve (some token) path ≡ inr home_path
  unfolding serve middleware
  serve-login token path login = rw (login-matched path login, login) refl

  -- With a cookie that holds no session (its signature does not check, or its role is none of the
  -- five) no number of redirects from a page of the console, or from a path that starts with "/login",
  -- shows anything: the layout sends the browser to the sign-in page, and the middleware, which only
  -- looks whether a cookie is there, sends it back.
  pub follow-none :
      (n : ℕ) (token path : Text)
      → get_session (some token) ≡ none
      → (is_console_path path ≡ true) ⊎ (starts_with path login_path ≡ true)
      → follow n (some token) path ≡ none
  unfolding follow
  follow-none zero token path h at = refl
  follow-none (suc n) token path h (inl console) =
      rw (serve-console token path h console, follow) (follow-none n token login_path h (inr refl))
  follow-none (suc n) token path h (inr login) =
      rw (serve-login token path login, follow)
        (follow-none n token home_path h (inl home_is_console))

  get_session-encode : (session : Session) → get_session (some (encode session)) ≡ some session
  unfolding get_session
  get_session-encode session = rw (encode-is_empty session, decode-encode session) refl

  destination_lem : (from : Text) → starts_with (destination from) home_path ≡ true
  destination_lem from = elim (Bool-cases (starts_with from home_path)) [
    | inl inside ↦ rw (inside, inside) refl
    | inr outside ↦ rw outside refl
  ]

  -- A sign-in that is accepted had one of the five roles and an email that is not blank, sets a
  -- cookie that reads back as a session with that role and the trimmed email, and sends the browser
  -- to a text that starts with a slash.
  pub sign_in-accepted :
      (email role from : Option Text) (now_ms : ℕ) (token to : Text)
      → sign_in email role from now_ms ≡ accepted token to
      → (session : Session) × (get_session (some token) ≡ some session)
        × (session.email ≡ trim (text_or email []))
        × (is_empty session.email ≡ false)
        × (role_of (text_or role []) ≡ some session.role)
        × (starts_with to home_path ≡ true)
  unfolding sign_in
  sign_in-accepted email role from now_ms token to h = go (role_of (text_or role [])) refl h
    where
      address : Text
      address = trim (text_or email [])

      go :
          (o : Option Role)
          → role_of (text_or role []) ≡ o
          → signed address (text_or from home_path) o now_ms ≡ accepted token to
          → (session : Session) × (get_session (some token) ≡ some session)
            × (session.email ≡ address)
            × (is_empty session.email ≡ false)
            × (role_of (text_or role []) ≡ some session.role)
            × (starts_with to home_path ≡ true)
      go none e q = absurd (cc)
      go (some r) e q = elim (Bool-cases (is_empty address)) [
        | inl blank ↦ let gone = rw blank at q in absurd (cc)
        | inr given ↦
            let session : Session = record { email = address; role = r; issued_at = some now_ms } in
            let made = rw given at q in
            let same_token : encode session ≡ token = accepted_token made in
            let same_to : destination (text_or from home_path) ≡ to = accepted_to made in
            (
              session,
              rw (← same_token) (get_session-encode session),
              refl,
              given,
              e,
              rw (← same_to) (destination_lem (text_or from home_path)),
            )
      ]
