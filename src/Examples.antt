-- ===== src/Examples.antt =====
-- Concrete inputs for the examples: parameters that are functions, a case, a store and its generator.
pub mod Draws
pub mod Trees
pub mod Stores
pub mod Signing
pub mod Screens
pub mod Ledgers
pub mod Graphs
pub mod Canvases
use Prim.Native.String.{count}
use attesta_ai_powered_soc.Prelude.{
  ℕ, zero, suc, ◌+◌, ◌%◌, ◌<◌, ◌≡◌, refl, Bool, true, false, if◌then◌else◌, ltb, ltb→lt, none, some,
  List, [], ◌∷◌, length, replicate, length-replicate, All, arith, Bool-cases, inl, inr,
}
use attesta_ai_powered_soc.Types.{
  Case, critical, malicious, execution, impact, escalated, host, ResponseAction, isolate_host,
  pending,
}
use attesta_ai_powered_soc.Rng.{Xorshift32, next, new_rng}
use attesta_ai_powered_soc.Rng.Fractions.{Doubles, exact}
use attesta_ai_powered_soc.Rng.Sample.{Stays}
use attesta_ai_powered_soc.Merkle.{Bytes, Hashing}
use attesta_ai_powered_soc.Seed.{severity_for_score, disposition_for}
use attesta_ai_powered_soc.Seed.Classify.{IsClassified}
use attesta_ai_powered_soc.Store.{Store, init_store}
use attesta_ai_powered_soc.Store.Invariant.{IsValid}
use attesta_ai_powered_soc.Store.Proposals.{init_store-IsValid}

instance abbrev pub doubles : Doubles
doubles = exact

abbrev byte_sum : Bytes → ℕ
byte_sum [] = 7
byte_sum (b ∷ bs) = (b + 31 + byte_sum bs) % 256

pub All-replicate : (n b : ℕ) → b < 256 → All (λ c. c < 256) (replicate n b)
All-replicate zero b h = tt
All-replicate (suc n) b h = (h, All-replicate n b h)

-- A checksum in place of BLAKE3.
instance abbrev pub checksum : Hashing
checksum = record {
  blake3 = λ bytes. replicate 32 (byte_sum bytes % 256);
  blake3_length = λ bytes. length-replicate 32 (byte_sum bytes % 256);
  blake3_bytes = λ bytes. All-replicate 32 (byte_sum bytes % 256) (omega arith);
  encode = λ text. count text ∷ [];
}

-- Whether the next outputs stay below 0xffffffff, by running the generator.
abbrev pub stays : ℕ → Xorshift32 → Bool
stays zero r = true
stays (suc n) r = if ltb (next r).0 0xffffffff then stays n (next r).1 else false

pub stays-Stays : (n : ℕ) (r : Xorshift32) → stays n r ≡ true → Stays n r
stays-Stays zero r h = tt
stays-Stays (suc n) r h = elim (Bool-cases (ltb (next r).0 0xffffffff)) [
  | inl e ↦ (ltb→lt (next r).0 0xffffffff e, stays-Stays n (next r).1 (rw e at h))
  | inr e ↦ let gone = rw e at h in absurd (cc)
]

abbrev pub a_case : Case
a_case = record {
  id = "case-0";
  tenant_id = "tenant-alpha";
  title = "C2 beacon candidate on WIN-SRV-3";
  primary_entity = "WIN-SRV-3";
  entity_type = host;
  severity = critical;
  disposition = malicious;
  risk_score = 9000;
  tactics = execution ∷ impact ∷ [];
  claim_count = 4;
  created_at_ms = 1000;
  updated_at_ms = 2000;
  status = escalated;
  assignee = none;
  summary = "";
  dismiss_reason = none;
}

abbrev pub an_action : ResponseAction
an_action = record {
  id = "ra-case-0";
  case_id = "case-0";
  kind = isolate_host;
  target = "WIN-SRV-3";
  proposed_at_ms = 2000;
  rationale = "";
  status = pending;
}

-- a store with one case and one action
abbrev pub a_store : Store
a_store = init_store (a_case ∷ []) (("ra-case-0", an_action) ∷ []) (new_rng 0xc0ffee)

a_case-IsClassified : IsClassified a_case
unfolding severity_for_score disposition_for
a_case-IsClassified = (refl, (false, refl))

pub a_store-IsValid : IsValid a_store
a_store-IsValid =
    init_store-IsValid (a_case ∷ []) (("ra-case-0", an_action) ∷ []) (new_rng 0xc0ffee)
      (a_case-IsClassified, tt)
