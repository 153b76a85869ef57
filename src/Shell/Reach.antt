-- ===== src/Shell/Reach.antt =====
-- The chord of the shell's keyboard leads only where the session's role may go.
use attesta_ai_powered_soc.Prelude.{
  ◌≡◌, refl, String, str_eq, Bool, true, false, Option, none, some, List, [], ◌∷◌, find, filter,
  All, In, inl, inr, ◌⊎◌, Bool-cases, not, ◌||◌, ◌&&◌, if◌then◌else◌,
}
use attesta_ai_powered_soc.Auth.{Role}
use attesta_ai_powered_soc.Shell.{
  Surface, surfaces, permits, KeyboardEvent, Chrome, clear_chord, surface_for, go_to, on_chrome_key,
  pressed, timed_out, Reachable, start, after,
}

-- The address of a surface of the console that is open to the role.
abbrev pub IsOpenTo : Role → String → Type 0
IsOpenTo role href = (f : Surface) × In f surfaces × (permits role f.roles ≡ true) × (f.href ≡ href)

find-In :
    (p q : Surface → Bool) (fs : List Surface) (f : Surface)
    → find q (filter p fs) ≡ some f
    → In f fs × (p f ≡ true)
find-In p q [] f h = absurd (cc)
find-In p q (g ∷ gs) f h = elim (Bool-cases (p g)) [
  | inr out ↦ let (member, holds) = find-In p q gs f (rw out at h) in (inr member, holds)
  | inl kept ↦ elim (Bool-cases (q g)) [
    | inl hit ↦ let same : some g ≡ some f = rw (kept, hit) at h in found_here g f kept same
    | inr miss ↦
        let (member, holds) = find-In p q gs f (rw (kept, miss) at h) in (inr member, holds)
  ]
]
  where
    found_here :
        (a b : Surface) → p a ≡ true → some a ≡ some b → (((a ≡ b) ⊎ In b gs) × (p b ≡ true))
    found_here a b kept same = let e : a ≡ b = cc in (inl e, rw (← e) kept)

go_to-All :
    (role : Role) (e : KeyboardEvent) (s : Chrome)
    → All (IsOpenTo role) s.visited
    → All (IsOpenTo role) (go_to (surface_for role e) s).visited
go_to-All role e s h = go (surface_for role e) refl
  where
    go : (o : Option Surface) → surface_for role e ≡ o → All (IsOpenTo role) (go_to o s).visited
    go none q = h
    go (some f) q =
        let (member, allowed) =
          find-In (λ (g : Surface). permits role g.roles)
            (λ (g : Surface). str_eq g.chord_key e.lower) surfaces f q in
        ((f, member, allowed, refl), h)

-- However the branches of the handler are decided, only the chord's adds an address.
key-All :
    (role : Role) (e : KeyboardEvent) (s : Chrome)
    → All (IsOpenTo role) s.visited
    → All (IsOpenTo role) (on_chrome_key role e s).visited
unfolding on_chrome_key
key-All role e s h =
    cases e.default_prevented (str_eq e.key "Escape") (s.chord_active && not e.editable)
      (e.editable || e.meta_key || e.ctrl_key || e.alt_key)
      ((e.meta_key || e.ctrl_key) && str_eq e.lower "k") (str_eq e.key "/") (str_eq e.key "?")
      (str_eq e.key "g")
  where
    cases :
        (a b c d k slash question g : Bool)
        → All
            (IsOpenTo role)
            (if a
              then s
              else if b
              then record s { palette_open = false; help_open = false; chord_active = false }
              else if c
              then go_to (surface_for role e) (clear_chord s)
              else if d
              then if k then record s { palette_open = true } else s
              else if slash
              then record s { palette_open = true }
              else if question
              then record s { help_open = true }
              else if g
              then record s { chord_active = true }
              else s).visited
    cases true b c d k slash question g = h
    cases false true c d k slash question g = h
    cases false false true d k slash question g = go_to-All role e (clear_chord s) h
    cases false false false true true slash question g = h
    cases false false false true false slash question g = h
    cases false false false false k true question g = h
    cases false false false false k false true g = h
    cases false false false false k false false true = h
    cases false false false false k false false false = h

-- Whatever keys are pressed and whenever the chord's timer runs out, the shell's keyboard sends the
-- router only to surfaces that are open to the session's role.
pub visited_lem : (role : Role) (s : Chrome) → Reachable role s → All (IsOpenTo role) s.visited
visited_lem role s start = tt
visited_lem role s (after before (pressed e)) = key-All role e _ (visited_lem role _ before)
visited_lem role s (after before timed_out) = visited_lem role _ before
