-- ===== src/Auth/Tokens.antt =====
-- The session token of web/src/lib/auth/session.ts: what `encode` makes `decode` reads, and only a
-- signed payload is read.
use attesta_ai_powered_soc.Prelude.{
  ℕ, ◌≡◌, refl, ◌≢◌, true, false, Option, some, List, [], ◌∷◌, ◌++◌, All, arith, Bool-cases, inl,
  inr, ◌||◌,
}
use attesta_ai_powered_soc.Auth.{
  Text, dot, text_beq, Role, analyst, senior, engineer, admin, auditor, role_text, role_of, Session,
  Signing, split_dot, is_empty, checked, session_of, encode, verified, decoded, decode,
}

text_beq_refl : (t : Text) → text_beq t t ≡ true
text_beq_refl [] = refl
text_beq_refl (c ∷ cs) = ground (arith, text_beq_refl cs)

text_beq_eq : (s t : Text) → text_beq s t ≡ true → s ≡ t
text_beq_eq [] [] h = refl
text_beq_eq [] (d ∷ ds) h = cc
text_beq_eq (c ∷ cs) [] h = cc
text_beq_eq (c ∷ cs) (d ∷ ds) h = ground (arith, text_beq_eq cs ds, h)

-- The role that was written is the role that is read.
checked_lem :
    (email : Text) (role : Role) (issued_at : Option ℕ)
    → checked (some email) (some (role_text role)) issued_at
      ≡ some (record { email = email; role = role; issued_at = issued_at })
unfolding role_of
checked_lem email analyst issued_at = refl
checked_lem email senior issued_at = refl
checked_lem email engineer issued_at = refl
checked_lem email admin issued_at = refl
checked_lem email auditor issued_at = refl

split_dot-no_dot : (t : Text) → All (λ c. c ≢ dot) t → split_dot t ≡ t ∷ []
unfolding split_dot
split_dot-no_dot [] h = refl
split_dot-no_dot (c ∷ cs) (h, hs) = ground (arith, split_dot-no_dot cs hs, h)

split_dot-joined :
    (s t : Text)
    → All (λ c. c ≢ dot) s
    → All (λ c. c ≢ dot) t
    → split_dot (s ++ dot ∷ t) ≡ s ∷ t ∷ []
unfolding split_dot
split_dot-joined [] t hs ht = rw (split_dot-no_dot t ht) refl
split_dot-joined (c ∷ cs) t (h, hs) ht = ground (arith, split_dot-joined cs t hs ht, h)

is_empty-false : (t : Text) → t ≢ [] → is_empty t ≡ false
is_empty-false [] h = absurd (h refl)
is_empty-false (c ∷ cs) h = refl

is_empty-append : (s t : Text) → is_empty s ≡ false → is_empty (s ++ t) ≡ false
is_empty-append [] t h = cc
is_empty-append (c ∷ cs) t h = refl

module _ ⦃sg : Signing⦄ where
  -- Reading the token that was made for a session gives the session back.
  pub decode-encode : (session : Session) → decode (encode session) ≡ some session
  unfolding decode encode
  decode-encode session =
      let payload = sg.payload_of session in
      rw
        (
          split_dot-joined payload (sg.sign payload) (sg.payload_no_dot session)
              (sg.sign_no_dot payload),
          is_empty-false payload (sg.payload_some session),
          is_empty-false (sg.sign payload) (sg.sign_some payload),
          text_beq_refl (sg.sign payload),
          sg.parse-payload_of session,
        )
        (checked_lem session.email session.role session.issued_at)

  pub encode-is_empty : (session : Session) → is_empty (encode session) ≡ false
  unfolding encode
  encode-is_empty session =
      let payload = sg.payload_of session in
      is_empty-append payload (dot ∷ sg.sign payload)
        (is_empty-false payload (sg.payload_some session))

  verified_lem :
      (payload signature : Text) (session : Session)
      → verified payload signature ≡ some session
      → (signature ≡ sg.sign payload) × (session_of (sg.parse payload) ≡ some session)
  verified_lem payload signature session h =
      elim (Bool-cases (is_empty payload || is_empty signature)) [
        | inl e ↦ let gone = rw e at h in absurd (cc)
        | inr e ↦ elim (Bool-cases (text_beq signature (sg.sign payload))) [
          | inl same ↦ (text_beq_eq signature (sg.sign payload) same, rw (e, same) at h)
          | inr other ↦ let gone = rw (e, other) at h in absurd (cc)
        ]
      ]

  -- A token that is read starts with a payload and the payload's own signature, and the session is
  -- what that payload holds: no token without a valid signature is read. (More pieces after a second
  -- dot are ignored.)
  pub decode-signed :
      (token : Text) (session : Session)
      → decode token ≡ some session
      → (payload : Text) × (more : List Text) × (split_dot token ≡ payload ∷ sg.sign payload ∷ more)
        × (session_of (sg.parse payload) ≡ some session)
  unfolding decode
  decode-signed token session h = go (split_dot token) refl h
    where
      go :
          (pieces : List Text)
          → split_dot token ≡ pieces
          → decoded pieces ≡ some session
          → (payload : Text) × (more : List Text) × (split_dot token
              ≡ payload ∷ sg.sign payload ∷ more)
            × (session_of (sg.parse payload) ≡ some session)
      go [] e q = absurd (cc)
      go (p ∷ []) e q = absurd (cc)
      go (p ∷ s ∷ more) e q =
          let (signed, held) = verified_lem p s session q in (p, more, rw (← signed) e, held)
