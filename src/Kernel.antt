-- ===== src/Kernel.antt =====
-- The deterministic kernel as the console calls it: the verdict's type in
-- web/src/lib/kernel/kernel-wasm.ts, and `verifyClaimSet`, a parameter, since it runs a WebAssembly
-- module. The kernel is a function of its request.
use attesta_ai_powered_soc.Prelude.{ℕ, String, List}
use attesta_ai_powered_soc.Types.{Severity, Disposition, AttributedClaim}
use attesta_ai_powered_soc.Policy.{KernelRequest}

-- The severity and the disposition are text there, and cast where they are read.
pub record KernelVerdict : Type 0 where
  pub severity : Severity
  pub confidence : ℕ
  pub disposition : Disposition
  pub attack_techniques : List String
  pub contributing_claims : List AttributedClaim
  pub policy_version : String
  pub kernel_version : String
  pub verdict_hash : String
  pub submitted_claim_ids : List String

pub data KernelResult : Type 0 where
  ok : KernelVerdict → KernelResult
  failed_with : String → KernelResult

pub record Kernel : Type 0 where
  pub verify_claim_set : KernelRequest → KernelResult
