-- ===== src/Store/Radius.antt =====
-- The blast radius of a response action: what is drawn, and how much of it.
use attesta_ai_powered_soc.Prelude.{
  ℕ, ◌+◌, ◌*◌, ◌≤◌, ◌≡◌, refl, String, some, length, In, All, arith,
}
use attesta_ai_powered_soc.Prelude.Text.{◌<>◌, decimal}
use attesta_ai_powered_soc.Types.{BlastRadius, ResponseAction}
use attesta_ai_powered_soc.Rng.{new_rng, pick}
use attesta_ai_powered_soc.Rng.Fractions.{Doubles}
use attesta_ai_powered_soc.Rng.Sample.{Stays, Stays-le}
use attesta_ai_powered_soc.Rng.Runs.{
  Runs, Runs-pure, Runs-bind, Runs-weaken, Runs-int, Runs-pick, Runs-bool, Runs-array_from,
}
use attesta_ai_powered_soc.Store.Actions.{
  principal, blast_host, principal_names, blast_hosts, service_names, draw_blast_radius,
  compute_blast_radius,
}

abbrev IsPrincipal : String → Type 0
IsPrincipal text = (name : String) × In name principal_names × (text ≡ "user:" <> name)

abbrev IsHost : String → Type 0
IsHost text =
    (name : String) × (n : ℕ) × In name blast_hosts
    × (1 ≤ n)
    × (n ≤ 99)
    × (text ≡ name <> "-" <> decimal n)

pub record IsRadius (b : BlastRadius) : Type 0 where
  pub some_principal : 1 ≤ length b.affected_principals
  pub few_principals : length b.affected_principals ≤ 6
  pub some_host : 1 ≤ length b.affected_hosts
  pub few_hosts : length b.affected_hosts ≤ 5
  pub few_services : length b.dependent_services ≤ 4
  pub principals : All IsPrincipal b.affected_principals
  pub hosts : All IsHost b.affected_hosts
  pub services : All (λ name. In name service_names) b.dependent_services

module _ ⦃fp : Doubles⦄ where
  principal-Runs : Runs 1 IsPrincipal principal
  unfolding principal
  principal-Runs =
      Runs-bind 1 0 _ _ (Runs-pick _ (omega arith) (omega arith))
        λ name m. Runs-pure _ (name, m, refl)

  blast_host-Runs : Runs 2 IsHost blast_host
  unfolding blast_host
  blast_host-Runs = Runs-bind 1 1 _ _ (Runs-pick _ (omega arith) (omega arith)) λ name m.
      Runs-bind 1 0 _ _ (Runs-int 1 99 (omega arith) (omega arith))
        λ n (low, high). Runs-pure _ (name, n, m, low, high, refl)

  draw_blast_radius-Runs : Runs 24 IsRadius draw_blast_radius
  unfolding draw_blast_radius
  draw_blast_radius-Runs =
      Runs-bind 1 23 _ _ (Runs-int 1 6 (omega arith) (omega arith)) λ np (p1, p6).
        Runs-bind 1 22 _ _ (Runs-int 1 5 (omega arith) (omega arith)) λ nh (h1, h5).
          Runs-bind 1 21 _ _ (Runs-int 0 4 (omega arith) (omega arith)) λ ns (s0, s4).
            Runs-bind 1 20 _ _ (Runs-bool 2 10) λ tier0 _.
              Runs-bind 6 14 _ _
                (Runs-weaken (np * 1) 6 _ (omega arith) (λ l p. p)
                  (Runs-array_from np 1 principal principal-Runs))
                λ ps (lp, ap).
                  Runs-bind 10 4 _ _
                    (Runs-weaken (nh * 2) 10 _ (omega arith) (λ l p. p)
                      (Runs-array_from nh 2 blast_host blast_host-Runs))
                    λ hs (lh, ah).
                      Runs-bind 4 0 _ _
                        (Runs-weaken (ns * 1) 4 _ (omega arith) (λ l p. p)
                          (Runs-array_from ns 1 (pick service_names)
                            (Runs-pick _ (omega arith) (omega arith))))
                        λ ss (ls, as'). Runs-pure _ (record {
                          some_principal = omega arith;
                          few_principals = omega arith;
                          some_host = omega arith;
                          few_hosts = omega arith;
                          few_services = omega arith;
                          principals = ap;
                          hosts = ah;
                          services = as';
                        })

  -- The blast radius of an action is computed with at most 24 draws while those stay below
  -- 0xffffffff: one to six principals, one to five hosts numbered 1 to 99 and at most four services,
  -- each of the names of the source's lists.
  pub compute_blast_radius-IsRadius :
      (id_length : ℕ) (action : ResponseAction)
      → Stays 24 (new_rng (id_length * 7919 + action.proposed_at_ms))
      → (b : BlastRadius) × (compute_blast_radius id_length action ≡ some b) × IsRadius b
  unfolding compute_blast_radius
  compute_blast_radius-IsRadius id_length action h =
      let r = new_rng (id_length * 7919 + action.proposed_at_ms) in
      let (b, r', e, good, _) =
        draw_blast_radius-Runs.run 0 r (Stays-le (24 + 0) 24 r (omega arith) h) in
      (b, rw e refl, good)
