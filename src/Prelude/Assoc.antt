-- ===== src/Prelude/Assoc.antt =====
-- JavaScript's `Map` as the list of its entries in insertion order, over any type of keys with an
-- equality test: `set` of a key that is there replaces its value in place, of any other appends.
use attesta_ai_powered_soc.Prelude.{
  ℕ, String, str_eq, str_eq_iff, ◌==◌, ==_iff, ◌≡◌, refl, ◌≢◌, ◌↔◌, Bool, true, false, Option, none,
  some, List, [], ◌∷◌, map, arith, if◌then◌else◌, In,
}

pub record Eq {ℓ} (K : Type ℓ) : Type ℓ where
  pub beq : K → K → Bool
  pub beq_iff : (a b : K) → (beq a b ≡ true) ↔ (a ≡ b)

instance abbrev pub string_eq : Eq String
string_eq = record { beq = str_eq; beq_iff = str_eq_iff }

instance abbrev pub nat_eq : Eq ℕ
nat_eq = record { beq = ◌==◌; beq_iff = ==_iff }

abbrev pub Assoc {ℓ κ} : Type ℓ → Type κ → Type (ℓ ⊔ κ)
Assoc K V = List (K × V)

module _ {ℓ κ} {K : Type ℓ} {V : Type κ} ⦃e : Eq K⦄ where
  unfoldable pub get : Assoc K V → K → Option V
  get [] k = none
  get ((j, v) ∷ m) k = if e.beq j k then some v else get m k

  unfoldable pub set : Assoc K V → K → V → Assoc K V
  set [] k v = (k, v) ∷ []
  set ((j, w) ∷ m) k v = if e.beq j k then (j, v) ∷ m else (j, w) ∷ set m k v

  -- `new Map(entries)`, from the entries that the map has already
  unfoldable pub set_all : Assoc K V → List (K × V) → Assoc K V
  set_all m [] = m
  set_all m ((k, v) ∷ entries) = set_all (set m k v) entries

  pub get-set :
      (m : Assoc K V) (k : K) (v : V) (j : K)
      → get (set m k v) j ≡ (if e.beq k j then some v else get m j)
  unfolding get set
  get-set [] k v j = refl
  get-set ((i, w) ∷ m) k v j =
      ground (arith, e.beq_iff k j, e.beq_iff i k, e.beq_iff i j, get-set m k v j)

  pub get-set_self : (m : Assoc K V) (k : K) (v : V) → get (set m k v) k ≡ some v
  get-set_self m k v = rw get-set (ground (arith, e.beq_iff k k))

  pub get-set_ne : (m : Assoc K V) (k : K) (v : V) (j : K) → k ≢ j → get (set m k v) j ≡ get m j
  get-set_ne m k v j h = rw get-set (ground (arith, e.beq_iff k j))

abbrev pub keys {ℓ κ} : {K : Type ℓ} {V : Type κ} → Assoc K V → List K
keys m = map (λ kv. kv.0) m

abbrev pub values {ℓ κ} : {K : Type ℓ} {V : Type κ} → Assoc K V → List V
values m = map (λ kv. kv.1) m

-- A `Set` is the list of its members; a membership test, and the members without one.
module _ {K : Type 0} ⦃e : Eq K⦄ where
  unfoldable pub has : List K → K → Bool
  has [] k = false
  has (j ∷ s) k = if e.beq j k then true else has s k

  pub has_iff : (s : List K) (k : K) → (has s k ≡ true) ↔ In k s
  unfolding has
  has_iff [] k = (λ h. cc, λ h. elim h [ ])
  has_iff (j ∷ s) k = (
    λ h. ground (arith, e.beq_iff j k, (has_iff s k).0),
    λ h. ground (arith, e.beq_iff j k, (has_iff s k).1),
  )
