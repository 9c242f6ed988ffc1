-- ===== src/TimeKv/Cells.antt =====
-- A TimeKv against its contract: each key is a cell of its own, with a time.
use rtio.Prelude.{
  ℕ, ◌-◌, ◌≡◌, refl, Option, none, some, List, [], ◌∷◌, ◌==◌, ltb, if◌then◌else◌, ap, ◌∙◌, arith,
}
use rtio.SyncMap.{SyncMap, load, nat_eq}
use rtio.SyncMap.Laws.{load-store, load-delete, IsMap, store-IsMap, delete-IsMap}
use rtio.TimeKv.{Stored, TimeKv, new_time_kv, sweep, del_expire_keys, del, set}
use rtio.TimeKv.Expiry.{load-del_expire_keys}

pub data Op {ℓ} (V : Type ℓ) : Type ℓ where
  set_op : ℕ → ℕ → V → Op V
  del_op : ℕ → Op V
  sweep_op : ℕ → Op V

module _ {ℓ} {V : Type ℓ} where
  abbrev pub apply : Op V → TimeKv V → TimeKv V
  apply (set_op now k v) s = set now k v s
  apply (del_op k) s = del k s
  apply (sweep_op now) s = del_expire_keys now s

  abbrev pub run : List (Op V) → TimeKv V → TimeKv V
  run [] s = s
  run (o ∷ os) s = run os (apply o s)

  -- The contract of one key: an optional value with the time at which it was set.
  abbrev pub cell_step : ℕ → ℕ → Op V → Option (Stored V) → Option (Stored V)
  cell_step expire key (set_op now k v) c =
      if k == key then some (record { store_time = now; value = v }) else c
  cell_step expire key (del_op k) c = if k == key then none else c
  cell_step expire key (sweep_op now) none = none
  cell_step expire key (sweep_op now) (some v) =
      if ltb expire (now - v.store_time) then none else some v

  abbrev pub cell_run : ℕ → ℕ → List (Op V) → Option (Stored V) → Option (Stored V)
  cell_run expire key [] c = c
  cell_run expire key (o ∷ os) c = cell_run expire key os (cell_step expire key o c)

  sweep-IsMap :
      (now expire : ℕ) (visits m : SyncMap ℕ (Stored V))
      → IsMap m
      → IsMap (sweep now expire visits m)
  unfolding sweep
  sweep-IsMap now expire [] m u = u
  sweep-IsMap now expire ((k, v) ∷ visits) m u =
      sweep-IsMap now expire visits _ (ground (arith, delete-IsMap k m u))

  pub apply-IsMap : (o : Op V) (s : TimeKv V) → IsMap s.stored → IsMap (apply o s).stored
  unfolding set del del_expire_keys
  apply-IsMap (set_op now k v) s u = store-IsMap k _ s.stored u
  apply-IsMap (del_op k) s u = delete-IsMap k s.stored u
  apply-IsMap (sweep_op now) s u = sweep-IsMap now s.expire s.stored s.stored u

  apply-expire : (o : Op V) (s : TimeKv V) → (apply o s).expire ≡ s.expire
  unfolding set del del_expire_keys
  apply-expire (set_op now k v) s = refl
  apply-expire (del_op k) s = refl
  apply-expire (sweep_op now) s = refl

  load-apply :
      (o : Op V) (key : ℕ) (s : TimeKv V)
      → IsMap s.stored
      → load key (apply o s).stored ≡ cell_step s.expire key o (load key s.stored)
  unfolding set del
  load-apply (set_op now k v) key s u = load-store k key _ s.stored
  load-apply (del_op k) key s u = load-delete k key s.stored
  load-apply (sweep_op now) key s u = ground (arith, load-del_expire_keys now key s u)

  load-run :
      (os : List (Op V)) (key : ℕ) (s : TimeKv V)
      → IsMap s.stored
      → load key (run os s).stored ≡ cell_run s.expire key os (load key s.stored)
  load-run [] key s u = refl
  load-run (o ∷ os) key s u =
      load-run os key (apply o s) (apply-IsMap o s u)
      ∙ ap (λ e. cell_run e key os (load key (apply o s).stored)) (apply-expire o s)
      ∙ ap (cell_run s.expire key os) (load-apply o key s u)

  -- After any sequence of Set, Del and DelExpireKeys on a new store, each key holds what its own
  -- cell would: operations on other keys do not touch it, and a sweep empties it exactly when it
  -- was last set more than `expire` before.
  pub run-cell_run :
      (os : List (Op V)) (expire key : ℕ)
      → load key (run os (new_time_kv expire)).stored ≡ cell_run expire key os none
  unfolding new_time_kv load
  run-cell_run os expire key = load-run os key (record { stored = []; expire = expire }) tt
