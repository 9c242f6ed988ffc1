-- ===== src/TimeKv.antt =====
-- pkg/timekv: the requests in flight, by header id, with the time at which each was stored.
-- The clock is an argument of the calls that read it, in the unit of `expire`.
pub mod Expiry
pub mod Cells
mod Examples
use rtio.Prelude.{ℕ, ◌-◌, Option, none, some, List, [], ◌∷◌, ltb, if◌then◌else◌, Bool}
use rtio.SyncMap.{SyncMap, load, store, delete, nat_eq}

-- _Store
pub record Stored {ℓ} (V : Type ℓ) : Type ℓ where
  pub store_time : ℕ
  pub value : V

pub record TimeKv {ℓ} (V : Type ℓ) : Type ℓ where
  pub stored : SyncMap ℕ (Stored V)
  pub expire : ℕ

-- `time.Since(v.storeTime) > s.expire`; the clock does not run backwards.
abbrev pub is_expired {ℓ} : {V : Type ℓ} → ℕ → ℕ → Stored V → Bool
is_expired now expire v = ltb expire (now - v.store_time)

module _ {ℓ} {V : Type ℓ} where
  unfoldable pub new_time_kv : ℕ → TimeKv V
  new_time_kv expire = record { stored = []; expire = expire }

  -- The body of Range, over the entries that Range visits.
  unfoldable pub sweep : ℕ → ℕ → SyncMap ℕ (Stored V) → SyncMap ℕ (Stored V) → SyncMap ℕ (Stored V)
  sweep now expire [] m = m
  sweep now expire ((k, v) ∷ visits) m =
      sweep now expire visits (if is_expired now expire v then delete k m else m)

  unfoldable pub del_expire_keys : ℕ → TimeKv V → TimeKv V
  del_expire_keys now s = record s { stored = sweep now s.expire s.stored s.stored }

  unfoldable pub del : ℕ → TimeKv V → TimeKv V
  del key s = record s { stored = delete key s.stored }

  abbrev value_of : Option (Stored V) → Option V
  value_of none = none
  value_of (some v) = some v.value

  unfoldable pub get : ℕ → TimeKv V → Option V
  get key s = value_of (load key s.stored)

  unfoldable pub set : ℕ → ℕ → V → TimeKv V → TimeKv V
  set now key value s = record s {
    stored = store key (record { store_time = now; value = value }) s.stored;
  }
