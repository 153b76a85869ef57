-- ===== src/Watchfloor/Rate.antt =====
-- The rate of web/src/components/watchfloor/use-case-stream.ts: the fires of the last five seconds.
use mathlib.Core.List.{append_assoc, append-nil}
use attesta_ai_powered_soc.Prelude.{
  ℕ, ◌+◌, ◌≡◌, refl, ap, ◌∙◌, Bool, true, false, List, [], ◌∷◌, ◌++◌, length, filter, any, ltb, leb,
  ◌||◌, inl, inr, Bool-cases, arith, if◌then◌else◌,
}
use attesta_ai_powered_soc.Types.{Case, DetectorFireEvent}
use attesta_ai_powered_soc.Watchfloor.{
  hello, new_case, update, fire, CaseStream, initial_stream, Input, snapshot, opened, errored,
  message, is_empty, seed_cases, on_message, on_input, run_inputs,
}

-- The readings of the clock at the fires among the inputs.
abbrev pub fire_times : List Input → List ℕ
fire_times [] = []
fire_times (message (fire event) now ∷ rest) = now ∷ fire_times rest
fire_times (_ ∷ rest) = fire_times rest

-- Of the times of fires, those that no later fire came 5000 ms or more after.
abbrev pub recent_ones : List ℕ → List ℕ
recent_ones [] = []
recent_ones (t ∷ later) =
    if any (λ now. leb (t + 5000) now) later then recent_ones later else t ∷ recent_ones later

any-snoc : (p : ℕ → Bool) (xs : List ℕ) (x : ℕ) → any p (xs ++ x ∷ []) ≡ (any p xs || p x)
any-snoc p [] x = ground arith
any-snoc p (y ∷ xs) x = elim (Bool-cases (p y)) [
  | inl e ↦ rw e refl
  | inr e ↦ rw e (any-snoc p xs x)
]

-- The filter at a fire drops exactly those that the new fire is too late for.
filter-recent_ones :
    (now : ℕ) (past : List ℕ)
    → filter (λ t. ltb now (t + 5000)) (recent_ones past ++ now ∷ [])
      ≡ recent_ones (past ++ now ∷ [])
filter-recent_ones now [] = let own : ltb now (now + 5000) ≡ true = ground arith in rw own refl
filter-recent_ones now (t ∷ past) =
    let late = λ (u : ℕ). leb (t + 5000) u in
    elim (Bool-cases (any late past)) [
      | inl e ↦ rw (any-snoc late past now, e) (filter-recent_ones now past)
      | inr e ↦ elim (Bool-cases (ltb now (t + 5000))) [
        | inl kept ↦
            let early : leb (t + 5000) now ≡ false = ground (arith, kept) in
            rw (any-snoc late past now, e, kept, early, filter-recent_ones now past) refl
        | inr gone ↦
            let after : leb (t + 5000) now ≡ true = ground (arith, gone) in
            rw (any-snoc late past now, e, gone, after) (filter-recent_ones now past)
      ]
    ]

-- The state after inputs whose fires were at the times `past`.
record IsRated (past : List ℕ) (s : CaseStream) : Type 0 where
  pub stamps : s.fire_timestamps ≡ recent_ones past
  pub counted : s.recent_fires ≡ length s.fire_timestamps

seed_cases-IsRated :
    (initial : List Case) (past : List ℕ) (s : CaseStream)
    → IsRated past s
    → IsRated past (seed_cases initial s)
unfolding seed_cases
seed_cases-IsRated initial past s v = elim (Bool-cases (s.seeded || is_empty initial)) [
  | inl e ↦ rw e v
  | inr e ↦ rw e (record { stamps = v.stamps; counted = v.counted })
]

fire-IsRated :
    (event : DetectorFireEvent) (now : ℕ) (past : List ℕ) (s : CaseStream)
    → IsRated past s
    → IsRated (past ++ now ∷ []) (on_message (fire event) now s)
unfolding on_message
fire-IsRated event now past s v = record {
  stamps = rw v.stamps (filter-recent_ones now past);
  counted = refl;
}

run_inputs-IsRated :
    (is : List Input) (past : List ℕ) (s : CaseStream)
    → IsRated past s
    → IsRated (past ++ fire_times is) (run_inputs is s)
unfolding run_inputs on_input on_message
run_inputs-IsRated [] past s v = rw (append-nil past) v
run_inputs-IsRated (snapshot initial ∷ is) past s v =
    run_inputs-IsRated is past (seed_cases initial s) (seed_cases-IsRated initial past s v)
run_inputs-IsRated (opened ∷ is) past s v =
    run_inputs-IsRated is past _ (record { stamps = v.stamps; counted = v.counted })
run_inputs-IsRated (errored ∷ is) past s v =
    run_inputs-IsRated is past _ (record { stamps = v.stamps; counted = v.counted })
run_inputs-IsRated (message (hello at_ms) now ∷ is) past s v = run_inputs-IsRated is past s v
run_inputs-IsRated (message (new_case c) now ∷ is) past s v =
    run_inputs-IsRated is past _ (record { stamps = v.stamps; counted = v.counted })
run_inputs-IsRated (message (update c) now ∷ is) past s v =
    run_inputs-IsRated is past _ (record { stamps = v.stamps; counted = v.counted })
run_inputs-IsRated (message (fire event) now ∷ is) past s v =
    rw (← append_assoc past (now ∷ []) (fire_times is))
      (run_inputs-IsRated is (past ++ now ∷ []) _ (fire-IsRated event now past s v))

-- The rate is taken from the fires that no later fire came 5000 ms or more after, of all that there
-- were, whatever else arrived in between.
pub recent_fires_lem :
    (inputs : List Input)
    → (run_inputs inputs initial_stream).recent_fires ≡ length (recent_ones (fire_times inputs))
recent_fires_lem inputs =
    let v =
      run_inputs-IsRated inputs [] initial_stream (record { stamps = refl; counted = refl }) in
    v.counted ∙ ap length v.stamps
