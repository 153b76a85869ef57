-- ===== src/Ledger/Building.antt =====
-- The loops of `buildLedger` of web/src/lib/data/ledger.ts return, and leave the chains.
use attesta_ai_powered_soc.Prelude.{ℕ, ◌*◌, ◌≤◌, ◌≡◌, String, List, ◌++◌}
use attesta_ai_powered_soc.Types.{SealedManifest}
use attesta_ai_powered_soc.Rng.Fractions.{Doubles}
use attesta_ai_powered_soc.Rng.Runs.{Runs}
use attesta_ai_powered_soc.Policy.{PolicyBundle}
use attesta_ai_powered_soc.Kernel.{Kernel}
use attesta_ai_powered_soc.Merkle.{Hashing}
use attesta_ai_powered_soc.Ledger.Json.{JsonText}
use attesta_ai_powered_soc.Ledger.Drawn.{latest}
use attesta_ai_powered_soc.Ledger.Sealing.{IsKernel}
use attesta_ai_powered_soc.Ledger.Chains.{IsReady}
use attesta_ai_powered_soc.Ledger.{Sealed}

module _ ⦃fp : Doubles⦄ ⦃hs : Hashing⦄ ⦃js : JsonText⦄ (k : Kernel) (policy : PolicyBundle)
    (good : IsKernel k policy) (clock : ℕ → ℕ)
    (early : (i : ℕ) → clock i * 1_000_000 ≤ latest) where
  -- What a loop has pushed, and that the cases with these ids may follow.
  abbrev Extends : (List SealedManifest → Type 0) → List String → Sealed → Sealed → Type 0
  Extends P ids acc more =
      (ms : List SealedManifest) × (more.manifests ≡ acc.manifests ++ ms)
      × P ms
      × IsReady k policy ids more
