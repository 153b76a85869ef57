-- ===== src/Auth/Routes.antt =====
-- What the server answers to a path: web/src/middleware.ts with its matcher, the check of
-- web/src/app/(console)/layout.tsx, and the pages and the route handlers under web/src/app.
use attesta_ai_powered_soc.Prelude.{
  ℕ, zero, suc, Bool, true, false, Option, none, some, List, [], ◌∷◌, ◌&&◌, not, ◌⊎◌, inl, inr,
  ◌==◌, any, if◌then◌else◌,
}
use attesta_ai_powered_soc.Auth.{
  Text, text_beq, slash, Session, Signing, get_session, starts_with, login_path, home_path,
}

-- What the middleware does with a request: `to_login` keeps the path that was asked for.
pub data Gate : Type 0 where
  to_login : Text → Gate
  to_home : Gate
  pass : Gate

unfoldable pub middleware : Bool → Text → Gate
middleware has_session pathname =
    let is_login_route = starts_with pathname login_path in
    if not has_session && not is_login_route
    then to_login pathname
    else if has_session && is_login_route
    then to_home
    else pass

-- A pattern of the matcher, where `none` is the dot that stands for any character.
abbrev Pattern : Type 0
Pattern = List (Option ℕ)

abbrev begins : Text → Pattern → Bool
begins text [] = true
begins [] (p ∷ pattern) = false
begins (c ∷ cs) (none ∷ pattern) = begins cs pattern
begins (c ∷ cs) (some p ∷ pattern) = if c == p then begins cs pattern else false

-- "_next/static", "_next/image" and "favicon.ico"
abbrev excluded : List Pattern
excluded =
    (some 95
      ∷ some 110
      ∷ some 101
      ∷ some 120
      ∷ some 116
      ∷ some 47
      ∷ some 115
      ∷ some 116
      ∷ some 97
      ∷ some 116
      ∷ some 105
      ∷ some 99
      ∷ [])
    ∷ (some 95
        ∷ some 110
        ∷ some 101
        ∷ some 120
        ∷ some 116
        ∷ some 47
        ∷ some 105
        ∷ some 109
        ∷ some 97
        ∷ some 103
        ∷ some 101
        ∷ [])
    ∷ (some 102
        ∷ some 97
        ∷ some 118
        ∷ some 105
        ∷ some 99
        ∷ some 111
        ∷ some 110
        ∷ none
        ∷ some 105
        ∷ some 99
        ∷ some 111
        ∷ [])
    ∷ []

abbrev after_slash : Text → Bool
after_slash [] = false
after_slash (c ∷ cs) = if c == slash then not (any (begins cs) excluded) else false

-- `config.matcher`: whether the middleware is run for a path.
unfoldable pub is_matched : Text → Bool
is_matched pathname = after_slash pathname

-- The paths of the nine pages under web/src/app/(console), as web/src/lib/shortcuts.ts lists them.
abbrev pub console_paths : List Text
console_paths =
    (slash ∷ [])
    ∷ (slash ∷ 105 ∷ 110 ∷ 118 ∷ 101 ∷ 115 ∷ 116 ∷ 105 ∷ 103 ∷ 97 ∷ 116 ∷ 105 ∷ 111 ∷ 110 ∷ 45 ∷ 99
        ∷ 97 ∷ 110 ∷ 118 ∷ 97 ∷ 115 ∷ [])
    ∷ (slash ∷ 116 ∷ 105 ∷ 109 ∷ 101 ∷ 108 ∷ 105 ∷ 110 ∷ 101 ∷ [])
    ∷ (slash ∷ 118 ∷ 101 ∷ 114 ∷ 100 ∷ 105 ∷ 99 ∷ 116 ∷ 45 ∷ 108 ∷ 101 ∷ 100 ∷ 103 ∷ 101 ∷ 114 ∷ [])
    ∷ (slash ∷ 100 ∷ 114 ∷ 105 ∷ 102 ∷ 116 ∷ 45 ∷ 109 ∷ 111 ∷ 110 ∷ 105 ∷ 116 ∷ 111 ∷ 114 ∷ [])
    ∷ (slash ∷ 114 ∷ 101 ∷ 115 ∷ 112 ∷ 111 ∷ 110 ∷ 115 ∷ 101 ∷ 45 ∷ 99 ∷ 111 ∷ 110 ∷ 115 ∷ 111 ∷ 108
        ∷ 101 ∷ [])
    ∷ (slash ∷ 99 ∷ 111 ∷ 118 ∷ 101 ∷ 114 ∷ 97 ∷ 103 ∷ 101 ∷ 45 ∷ 109 ∷ 97 ∷ 112 ∷ [])
    ∷ (slash ∷ 100 ∷ 101 ∷ 116 ∷ 101 ∷ 99 ∷ 116 ∷ 105 ∷ 111 ∷ 110 ∷ 45 ∷ 115 ∷ 116 ∷ 117 ∷ 100 ∷ 105
        ∷ 111 ∷ [])
    ∷ (slash ∷ 116 ∷ 101 ∷ 110 ∷ 97 ∷ 110 ∷ 116 ∷ 45 ∷ 97 ∷ 100 ∷ 109 ∷ 105 ∷ 110 ∷ [])
    ∷ []

-- Whether a page of the console's layout has the path.
unfoldable pub is_console_path : Text → Bool
is_console_path pathname = any (text_beq pathname) console_paths

-- What a browser shows: the sign-in page, a page of the console for a session, or what neither the
-- sign-in page nor the console's layout renders (a route handler's answer, a file, a missing page).
pub data Page : Type 0 where
  login_page : Page
  console_page : Session → Page
  other_answer : Page

abbrev pub layout_shows : Option Session → Page ⊎ Text
layout_shows none = inr login_path
layout_shows (some session) = inl (console_page session)

abbrev pub has_cookie : Option Text → Bool
has_cookie none = false
has_cookie (some token) = true

-- What the router renders for a path, once the middleware has let the request pass.
abbrev pub rendered : ⦃sg : Signing⦄ → Option Text → Text → Page ⊎ Text
rendered cookie pathname =
    if is_console_path pathname
    then layout_shows (get_session cookie)
    else if text_beq pathname login_path
    then inl login_page
    else inl other_answer

abbrev pub gated : ⦃sg : Signing⦄ → Option Text → Text → Gate → Page ⊎ Text
gated cookie pathname (to_login from) = inr login_path
gated cookie pathname to_home = inr home_path
gated cookie pathname pass = rendered cookie pathname

-- The answer to a request for a path: what is shown, or the path of a redirect.
unfoldable pub serve : ⦃sg : Signing⦄ → Option Text → Text → Page ⊎ Text
unfolding middleware get_session is_matched is_console_path
serve cookie pathname =
    if is_matched pathname
    then gated cookie pathname (middleware (has_cookie cookie) pathname)
    else rendered cookie pathname

-- What a browser shows when it follows at most that many redirects.
unfoldable pub follow : ⦃sg : Signing⦄ → ℕ → Option Text → Text → Option Page
unfolding serve
follow zero cookie pathname = none
follow (suc n) cookie pathname = elim (serve cookie pathname) [
  | inl page ↦ some page
  | inr next ↦ follow n cookie next
]
