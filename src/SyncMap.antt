-- ===== src/SyncMap.antt =====
-- Go's sync.Map as the program uses it: Load, Store, Delete, LoadAndDelete and Range, each of which
-- is atomic. The map is an association list; Range visits a snapshot.
pub mod Laws
use rtio.Prelude.{
  ℕ, ◌≡◌, ◌↔◌, ◌&&◌, Bool, true, false, Option, none, some, List, [], ◌∷◌, ◌==◌, ==_iff, arith,
  if◌then◌else◌,
}

pub record Eq {ℓ} (A : Type ℓ) : Type ℓ where
  pub beq : A → A → Bool
  pub beq_iff : (j k : A) → (beq j k ≡ true) ↔ (j ≡ k)  -- the test decides equality

abbrev pub nat_beq : ℕ → ℕ → Bool
nat_beq a b = a == b

-- A key of type uint16.
instance abbrev pub nat_eq : Eq ℕ
nat_eq = record { beq = nat_beq; beq_iff = ==_iff }

abbrev pub bytes_beq : List ℕ → List ℕ → Bool
bytes_beq [] [] = true
bytes_beq [] (y ∷ ys) = false
bytes_beq (x ∷ xs) [] = false
bytes_beq (x ∷ xs) (y ∷ ys) = nat_beq x y && bytes_beq xs ys

pub bytes_beq_iff : (a b : List ℕ) → (bytes_beq a b ≡ true) ↔ (a ≡ b)
bytes_beq_iff [] [] = ground arith
bytes_beq_iff [] (y ∷ ys) = ground arith
bytes_beq_iff (x ∷ xs) [] = ground arith
bytes_beq_iff (x ∷ xs) (y ∷ ys) = ground (arith, bytes_beq_iff xs ys)

-- A key of type string.
instance abbrev pub bytes_eq : Eq (List ℕ)
bytes_eq = record { beq = bytes_beq; beq_iff = bytes_beq_iff }

abbrev pub SyncMap {ℓ κ} : Type ℓ → Type κ → Type (ℓ ⊔ κ)
SyncMap K V = List (K × V)

module _ {ℓ κ} {K : Type ℓ} {V : Type κ} ⦃e : Eq K⦄ where
  unfoldable pub load : K → SyncMap K V → Option V
  load k [] = none
  load k ((j, v) ∷ m) = if e.beq j k then some v else load k m

  unfoldable pub store : K → V → SyncMap K V → SyncMap K V
  store k v [] = (k, v) ∷ []
  store k v ((j, w) ∷ m) = if e.beq j k then (k, v) ∷ m else (j, w) ∷ store k v m

  unfoldable pub delete : K → SyncMap K V → SyncMap K V
  delete k [] = []
  delete k ((j, v) ∷ m) = if e.beq j k then delete k m else (j, v) ∷ delete k m
