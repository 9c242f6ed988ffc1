-- ===== src/SyncMap/Laws.antt =====
-- What Store and Delete do to Load, and that keys stay distinct.
use rtio.Prelude.{suc, ◌≡◌, refl, none, some, [], ◌∷◌, if◌then◌else◌, length, arith}
use rtio.SyncMap.{Eq, SyncMap, load, store, delete}

module _ {ℓ κ} {K : Type ℓ} {V : Type κ} ⦃e : Eq K⦄ where
  pub load-store :
      (k j : K) (v : V) (m : SyncMap K V)
      → load j (store k v m) ≡ (if e.beq k j then some v else load j m)
  unfolding load store
  load-store k j v [] = refl
  load-store k j v ((i, w) ∷ m) =
      ground (arith, e.beq_iff k j, e.beq_iff i k, e.beq_iff i j, load-store k j v m)

  pub load-delete :
      (k j : K) (m : SyncMap K V) → load j (delete k m) ≡ (if e.beq k j then none else load j m)
  unfolding load delete
  load-delete k j [] = ground arith
  load-delete k j ((i, w) ∷ m) =
      ground (arith, e.beq_iff k j, e.beq_iff i k, e.beq_iff i j, load-delete k j m)

  -- No key occurs twice.
  abbrev pub IsMap : SyncMap K V → Type (ℓ ⊔ κ)
  IsMap [] = Unit
  IsMap ((k, v) ∷ m) = (load k m ≡ none) × IsMap m

  pub load-nil : (k : K) → load {V = V} k [] ≡ none
  unfolding load
  load-nil k = refl

  pub store-IsMap : (k : K) (v : V) (m : SyncMap K V) → IsMap m → IsMap (store k v m)
  unfolding store
  store-IsMap k v [] h = (load-nil k, h)
  store-IsMap k v ((i, w) ∷ m) h =
      ground (arith, e.beq_iff i k, e.beq_iff k i, load-store k i v m, store-IsMap k v m h.1)

  pub delete-IsMap : (k : K) (m : SyncMap K V) → IsMap m → IsMap (delete k m)
  unfolding delete
  delete-IsMap k [] h = h
  delete-IsMap k ((i, w) ∷ m) h = ground (arith, load-delete k i m, delete-IsMap k m h.1)

  -- A new key adds an entry; an old one replaces its entry.
  pub length-store :
      (k : K) (v : V) (m : SyncMap K V)
      → length (store k v m) ≡ elim (load k m) [ none ↦ suc (length m) | some w ↦ length m ]
  unfolding load store
  length-store k v [] = refl
  length-store k v ((i, w) ∷ m) = ground (arith, length-store k v m)

  pub delete_absent : (k : K) (m : SyncMap K V) → load k m ≡ none → delete k m ≡ m
  unfolding load delete
  delete_absent k [] h = refl
  delete_absent k ((i, w) ∷ m) h = ground (arith, delete_absent k m)

  pub length-delete :
      (k : K) (v : V) (m : SyncMap K V)
      → IsMap m
      → load k m ≡ some v
      → suc (length (delete k m)) ≡ length m
  unfolding load delete
  length-delete k v [] u h = ground arith
  length-delete k v ((i, w) ∷ m) u h =
      ground (arith, e.beq_iff i k, delete_absent k m, length-delete k v m u.1)
