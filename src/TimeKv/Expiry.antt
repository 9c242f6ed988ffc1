-- ===== src/TimeKv/Expiry.antt =====
-- Which keys a sweep deletes, and what the operations do to each other.
use rtio.Prelude.{
  ℕ, ◌-◌, ◌≡◌, refl, none, some, [], ◌∷◌, ◌||◌, ◌&&◌, Bool, false, ltb, ==_iff, ◌==◌, if◌then◌else◌,
  arith,
}
use rtio.SyncMap.{SyncMap, load, delete, nat_eq}
use rtio.SyncMap.Laws.{load-delete, IsMap}
use rtio.TimeKv.{Stored, TimeKv, is_expired, sweep, del_expire_keys}

module _ {ℓ} {V : Type ℓ} where
  -- Some visited entry of the key has expired.
  outlived : ℕ → ℕ → ℕ → SyncMap ℕ (Stored V) → Bool
  outlived now expire j [] = false
  outlived now expire j ((k, v) ∷ m) =
      ((k == j) && is_expired now expire v) || outlived now expire j m

  load-sweep :
      (now expire j : ℕ) (visits m : SyncMap ℕ (Stored V))
      → load j (sweep now expire visits m)
        ≡ (if outlived now expire j visits then none else load j m)
  unfolding sweep outlived
  load-sweep now expire j [] m = refl
  load-sweep now expire j ((k, v) ∷ visits) m = ground (
    arith,
    load-delete k j m,
    load-sweep now expire j visits (if is_expired now expire v then delete k m else m),
  )

  outlived-load :
      (now expire j : ℕ) (m : SyncMap ℕ (Stored V))
      → IsMap m
      → outlived now expire j m
        ≡ elim (load j m) [ none ↦ false | some v ↦ is_expired now expire v ]
  unfolding outlived load
  outlived-load now expire j [] u = refl
  outlived-load now expire j ((k, v) ∷ m) u =
      ground (arith, ==_iff k j, outlived-load now expire j m u.1)

  pub load-del_expire_keys :
      (now key : ℕ) (s : TimeKv V)
      → IsMap s.stored
      → load key (del_expire_keys now s).stored ≡ elim (load key s.stored) [
        | none ↦ none
        | some v ↦ if ltb s.expire (now - v.store_time) then none else some v
      ]
  unfolding del_expire_keys
  load-del_expire_keys now key s u = ground (
    arith,
    load-sweep now s.expire key s.stored s.stored,
    outlived-load now s.expire key s.stored u,
  )
