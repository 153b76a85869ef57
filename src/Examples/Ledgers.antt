-- ===== src/Examples/Ledgers.antt =====
-- Examples of the theorems on the ledger, the drift and the evidence graph.
use mathlib.Core.List.{Perm}
use attesta_ai_powered_soc.Prelude.{
  ℕ, ◌+◌, ◌%◌, ◌≤◌, Bool, true, ◌&&◌, ltb, any, String, ◌≡◌, refl, false, some, List, [], ◌∷◌,
  length, replicate, length-replicate, All, arith,
}
use attesta_ai_powered_soc.Prelude.Assoc.{string_eq}
use attesta_ai_powered_soc.Prelude.Sort.{IsSortedBy, earlier, later}
use attesta_ai_powered_soc.Types.{
  Case, Severity, critical, malicious, RawClaim, SealedManifest, TimelineEvent,
}
use attesta_ai_powered_soc.Rng.{next, new_rng}
use attesta_ai_powered_soc.Policy.{PolicyBundle, build_synthetic_policy}
use attesta_ai_powered_soc.Kernel.{KernelVerdict, KernelResult, ok, failed_with, Kernel}
use attesta_ai_powered_soc.Seed.Timeline.{window_ms, at_ms_of, generate_timeline_events}
use attesta_ai_powered_soc.Seed.Events.{AreGroups, joined, generate_timeline_events-IsSortedBy}
use attesta_ai_powered_soc.Ledger.{kernel_version, tenants, LedgerData, build_ledger, completed_of}
use attesta_ai_powered_soc.Ledger.Json.{JsonText}
use attesta_ai_powered_soc.Ledger.Drawn.{IsPlausible}
use attesta_ai_powered_soc.Ledger.Sealing.{IsKernel}
use attesta_ai_powered_soc.Ledger.Chains.{flatten, HasData, IsLedger}
use attesta_ai_powered_soc.Drift.{augmented}
use attesta_ai_powered_soc.Drift.Flips.{TakesRaised}
use attesta_ai_powered_soc.Graph.{Graph, hash_seed, node_count_of, edge_count_of, generate_graph}
use attesta_ai_powered_soc.Graph.Edges.{AreNodes, IsEdgeOf, generate_graph-returns}
use attesta_ai_powered_soc.Examples.{doubles, checksum, stays-Stays, a_case}

instance abbrev flat_text : JsonText
flat_text = record { stringify = λ value. "{}" }

-- The verdict of a kernel that gives every claim an id.
abbrev pub verdict_for : List RawClaim → KernelVerdict
verdict_for claims = record {
  severity = critical;
  confidence = 9000;
  disposition = malicious;
  attack_techniques = [];
  contributing_claims = [];
  policy_version = "policy-2026.09.0";
  kernel_version = kernel_version;
  verdict_hash = "abc";
  submitted_claim_ids = replicate (length claims) "c";
}

abbrev ascending : List (ℕ × Severity) → Bool
ascending [] = false
ascending ((a, s) ∷ []) = true
ascending ((a, s) ∷ (b, t) ∷ rest) = ltb a b && ascending ((b, t) ∷ rest)

abbrev lacks_evidence : RawClaim → Bool
lacks_evidence c = ltb (length c.evidence) 1

abbrev answer_for : Bool → Bool → List RawClaim → KernelResult
answer_for false lacking claims = failed_with "severity_thresholds must be strictly ascending"
answer_for true true claims = failed_with "empty evidence list"
answer_for true false claims = ok (verdict_for claims)

-- A kernel that refuses a claim without evidence, and a policy whose thresholds do not ascend.
abbrev pub kernel : Kernel
kernel = record {
  verify_claim_set = λ request.
      answer_for (ascending request.policy.severity_thresholds) (any lacks_evidence request.claims)
        request.claims;
}

evidence_given :
    (entity : String) (claims : List RawClaim)
    → All (IsPlausible entity) claims
    → any lacks_evidence claims ≡ false
evidence_given entity [] h = refl
evidence_given entity (c ∷ cs) (h, hs) =
    let given : ltb (length c.evidence) 1 ≡ false = ground (arith, h.some_evidence) in
    rw (given, evidence_given entity cs hs) refl

kernel-IsKernel :
    (policy : PolicyBundle) → ascending policy.severity_thresholds ≡ true → IsKernel kernel policy
kernel-IsKernel policy up = record {
  verdict_of = verdict_for;
  accepts = λ claims set. rw (up, evidence_given set.entity claims set.plausible) refl;
  ids = λ claims set. length-replicate (length claims) "c";
  version = λ claims set. refl;
}

synthetic_ascends : ascending build_synthetic_policy.severity_thresholds ≡ true
unfolding build_synthetic_policy
synthetic_ascends = refl

pub kernel-TakesRaised : TakesRaised kernel
kernel-TakesRaised = λ predicate existing there.
    kernel-IsKernel (augmented build_synthetic_policy predicate existing) synthetic_ascends

abbrev cases : List Case
cases = a_case ∷ record a_case { id = "case-10" } ∷ []

abbrev clock : ℕ → ℕ
clock i = 1_800_000_000_000 + i % 1000

abbrev Built : Type 0
Built =
    (d : LedgerData) × (chains : List (List SealedManifest)) × (build_ledger kernel clock cases
      ≡ some d)
    × (d.policy ≡ build_synthetic_policy)
    × IsLedger cases tenants chains
    × Perm d.manifests (flatten chains)
    × IsSortedBy (earlier completed_of) d.manifests
    × All (HasData kernel build_synthetic_policy d.case_data) d.manifests

abbrev pub clocks : ℕ → ℕ × ℕ
clocks i = (1_800_000_000_000, 1_800_000_000_001)

abbrev graph_clock : ℕ
graph_clock = 1_800_000_000_000

generate_graph-returns_example :
    (g : Graph) × (generate_graph "case-0" (some 2) graph_clock ≡ some g)
    × AreNodes "case-0" graph_clock 0 g.nodes
    × (length g.nodes ≡ 2)
    × All (IsEdgeOf g.nodes) g.edges
    × (length g.edges ≤ edge_count_of 2)
unfolding next new_rng hash_seed node_count_of
generate_graph-returns_example =
    generate_graph-returns "case-0" (some 2) graph_clock (omega arith)
      (stays-Stays 205 (new_rng (hash_seed "case-0")) refl)

generate_timeline_events-IsSortedBy_example :
    (events : List TimelineEvent) × (groups : List (List TimelineEvent)) × (generate_timeline_events
        a_case 42
      ≡ some events)
    × IsSortedBy (later at_ms_of) events
    × Perm events (joined groups)
    × AreGroups a_case a_case.tactics groups
unfolding next new_rng window_ms
generate_timeline_events-IsSortedBy_example =
    generate_timeline_events-IsSortedBy a_case (omega arith) 42 (stays-Stays 110 (new_rng 42) refl)
