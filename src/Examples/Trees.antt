-- ===== src/Examples/Trees.antt =====
-- Examples of the theorems on the Merkle tree.
use attesta_ai_powered_soc.Prelude.{
  ℕ, ◌≡◌, refl, ◌↔◌, ◌⊎◌, String, true, some, List, [], ◌∷◌, arith,
}
use attesta_ai_powered_soc.Merkle.{
  MerkleTree, InclusionProof, build_merkle_tree, prove_inclusion, verify_inclusion, pad_preimage,
}
use attesta_ai_powered_soc.Merkle.Complete.{verify_inclusion-prove_inclusion}
use attesta_ai_powered_soc.Merkle.Preimages.{Collision, tree_preimages, proof_preimages}
use attesta_ai_powered_soc.Merkle.Sound.{Encoded, verify_inclusion_sound}
use attesta_ai_powered_soc.Merkle.Padding.{go_pad_preimage, pad_preimage-eq-go_pad_preimage_iff}
use attesta_ai_powered_soc.Examples.{checksum}

abbrev evidence : List String
evidence = "e1" ∷ "evidence-two" ∷ "e-3" ∷ []

abbrev Proved : Type 0
Proved =
    (tree : MerkleTree) × (proof : InclusionProof) × (build_merkle_tree evidence ≡ some tree)
    × (prove_inclusion tree 2 ≡ some proof)
    × (proof.root ≡ tree.root)
    × (verify_inclusion "e-3" proof ≡ true)

verify_inclusion-prove_inclusion_example : Proved
verify_inclusion-prove_inclusion_example = verify_inclusion-prove_inclusion evidence 2 "e-3" refl

proved : Proved
proved = verify_inclusion-prove_inclusion evidence 2 "e-3" refl

verify_inclusion_sound_example :
    Encoded "e-3" evidence ⊎ Collision (tree_preimages evidence) (proof_preimages "e-3" proved.1)
verify_inclusion_sound_example =
    verify_inclusion_sound evidence proved.0 "e-3" proved.1 proved.2 proved.4 proved.5

abbrev fourth : ℕ
fourth = 3

pad_preimage-eq-go_pad_preimage_iff_example :
    (pad_preimage fourth ≡ go_pad_preimage fourth) ↔ (fourth ≡ 0)
pad_preimage-eq-go_pad_preimage_iff_example =
    pad_preimage-eq-go_pad_preimage_iff fourth (omega arith)
