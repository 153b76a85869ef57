-- ===== src/Ledger/Chains.antt =====
-- `buildLedger` of web/src/lib/data/ledger.ts: a chain of manifests for each tenant, and the data
-- behind every one of them.
use Prim.Native.String.{count}
use text.Mathlib.TextLemmas.{append_cancel_left, append_inj, length-append as count-append}
use attesta_ai_powered_soc.Prelude.{
  ℕ, ◌+◌, ◌≡◌, ◌≢◌, refl, sym, ap, ◌∙◌, String, some, List, [], ◌∷◌, ◌++◌, map, length, All, arith,
}
use attesta_ai_powered_soc.Prelude.Assoc.{Assoc, get, set, get-set_self, get-set_ne, string_eq}
use attesta_ai_powered_soc.Prelude.Text.{◌<>◌}
use attesta_ai_powered_soc.Types.{Case, SealedManifest}
use attesta_ai_powered_soc.Policy.{PolicyBundle}
use attesta_ai_powered_soc.Kernel.{Kernel}
use attesta_ai_powered_soc.Merkle.{Hashing}
use attesta_ai_powered_soc.Ledger.Json.{JsonText}
use attesta_ai_powered_soc.Ledger.Sealing.{IsBacked, IsLinked}
use attesta_ai_powered_soc.Ledger.{
  zero_hash, LedgerCaseData, Sealed, is_broken_at, pushed, tenant_cases,
}

abbrev pub IsDistinct : List String → Type 0
IsDistinct [] = Unit
IsDistinct (id ∷ ids) = All (λ other. id ≢ other) ids × IsDistinct ids

abbrev pub ids_of : List Case → List String
ids_of cases = map (λ (c : Case). c.id) cases

abbrev pub flatten : {A : Type 0} → List (List A) → List A
flatten [] = []
flatten (xs ∷ xss) = xs ++ flatten xss

-- the cases that the ledger has manifests of
abbrev pub ledger_cases : List Case → List String → List Case
ledger_cases cases [] = []
ledger_cases cases (tenant_id ∷ rest) = tenant_cases cases tenant_id ++ ledger_cases cases rest

abbrev pub IsNamed : SealedManifest → Type 0
IsNamed s =
    (suffix : String) × (s.manifest.investigation_id
      ≡ "inv-" <> s.manifest.case_id <> "-" <> suffix)
    × (count suffix ≡ 6)

-- Investigations of different cases have different ids.
IsNamed-apart :
    (s t : SealedManifest)
    → IsNamed s
    → IsNamed t
    → s.manifest.case_id ≢ t.manifest.case_id
    → s.manifest.investigation_id ≢ t.manifest.investigation_id
IsNamed-apart s t (a, ea, ca) (b, eb, cb) ne same =
    let texts : "inv-" <> s.manifest.case_id <> "-" <> a
        ≡ "inv-" <> t.manifest.case_id <> "-" <> b =
      sym ea ∙ same ∙ eb in
    let tails = append_cancel_left "inv-" _ _ texts in
    let counted : count s.manifest.case_id ≡ count t.manifest.case_id = omega (
      arith,
      count-append s.manifest.case_id ("-" <> a),
      count-append t.manifest.case_id ("-" <> b),
      count-append "-" a,
      count-append "-" b,
      ap count tails,
    ) in
    ne (append_inj tails counted).0

pub map-append : (xs ys : List Case) → ids_of (xs ++ ys) ≡ ids_of xs ++ ids_of ys
map-append [] ys = refl
map-append (x ∷ xs) ys = ap (λ ids. x.id ∷ ids) (map-append xs ys)

All-append : {A : Type 0} (P : A → Type 0) (xs ys : List A) → All P xs → All P ys → All P (xs ++ ys)
All-append P [] ys h g = g
All-append P (x ∷ xs) ys (hx, h) g = (hx, All-append P xs ys h g)

pub All-map :
    {A : Type 0} (P Q : A → Type 0) (xs : List A) → ((a : A) → P a → Q a) → All P xs → All Q xs
All-map P Q [] f h = tt
All-map P Q (x ∷ xs) f (hx, h) = (f x hx, All-map P Q xs f h)

module _ ⦃hs : Hashing⦄ (k : Kernel) (policy : PolicyBundle) where
  -- The case data of the manifest is found under its investigation id.
  abbrev pub HasData : Assoc String LedgerCaseData → SealedManifest → Type 0
  HasData known s =
      (cd : LedgerCaseData) × (get known s.manifest.investigation_id ≡ some cd)
      × IsBacked k policy s.manifest cd

module _ ⦃hs : Hashing⦄ ⦃js : JsonText⦄ where
  -- The manifests of a tenant's cases, each linked to the one before it.
  abbrev pub IsChain : String → ℕ → ℕ → String → List Case → List SealedManifest → Type 0
  IsChain tenant_id count i prev_hash [] [] = Unit
  IsChain tenant_id count i prev_hash (c ∷ cs) (s ∷ ss) =
      IsLinked tenant_id c.id prev_hash (is_broken_at i count) s
      × IsChain tenant_id count (i + 1) s.manifest_hash cs ss
  IsChain tenant_id count i prev_hash _ _ = ⊥

  abbrev pub IsLedger : List Case → List String → List (List SealedManifest) → Type 0
  IsLedger cases [] [] = Unit
  IsLedger cases (tenant_id ∷ rest) (chain ∷ chains) =
      IsChain tenant_id (length (tenant_cases cases tenant_id)) 0 zero_hash
        (tenant_cases cases tenant_id) chain
      × IsLedger cases rest chains
  IsLedger cases _ _ = ⊥

module _ ⦃hs : Hashing⦄ (k : Kernel) (policy : PolicyBundle) where
  -- The manifests so far, while cases with these ids are to come.
  pub record IsReady (ids : List String) (acc : Sealed) : Type 0 where
    pub backing : All (HasData k policy acc.case_data) acc.manifests
    pub named : All IsNamed acc.manifests
    pub apart : All (λ s. All (λ id. s.manifest.case_id ≢ id) ids) acc.manifests

  -- The data of the manifests before is not overwritten.
  data_kept :
      (s : SealedManifest) (cd : LedgerCaseData) (known : Assoc String LedgerCaseData)
      (ids : List String) (ms : List SealedManifest)
      → IsNamed s
      → cd.investigation_id ≡ s.manifest.investigation_id
      → All (HasData k policy known) ms
      → All IsNamed ms
      → All (λ m. All (λ id. m.manifest.case_id ≢ id) (s.manifest.case_id ∷ ids)) ms
      → All (HasData k policy (set known cd.investigation_id cd)) ms
  data_kept s cd known ids [] n same h ns ap' = tt
  data_kept s cd known ids (m ∷ ms) n same ((entry, at, backed), h) (nm, ns) ((ne, _), rest) =
      let other : cd.investigation_id ≢ m.manifest.investigation_id =
        λ e. IsNamed-apart m s nm n ne (sym e ∙ same) in
      (
        (
          entry,
          get-set_ne known cd.investigation_id cd m.manifest.investigation_id other ∙ at,
          backed,
        ),
        data_kept s cd known ids ms n same h ns rest,
      )

  pub pushed-IsReady :
      (s : SealedManifest) (cd : LedgerCaseData) (ids : List String) (acc : Sealed)
      → IsNamed s
      → IsBacked k policy s.manifest cd
      → All (λ other. s.manifest.case_id ≢ other) ids
      → IsReady (s.manifest.case_id ∷ ids) acc
      → IsReady ids (pushed acc s cd)
  pushed-IsReady s cd ids acc n backed fresh r =
      let here : get (set acc.case_data cd.investigation_id cd) s.manifest.investigation_id
          ≡ some cd =
        rw (← backed.same_id) (get-set_self acc.case_data cd.investigation_id cd) in
      record {
        backing =
            All-append (HasData k policy (set acc.case_data cd.investigation_id cd)) acc.manifests _
              (data_kept s cd acc.case_data ids acc.manifests n backed.same_id r.backing r.named
                r.apart)
              ((cd, here, backed), tt);
        named = All-append IsNamed acc.manifests _ r.named (n, tt);
        apart =
            All-append _ acc.manifests _ (All-map _ _ acc.manifests (λ m (_, h). h) r.apart)
              (fresh, tt);
      }
