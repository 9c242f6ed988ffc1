-- ===== src/Config/Settings.antt =====
-- What a setting is after any calls of Set.
use rtio.Prelude.{ℕ, ◌≡◌, refl, ap, ◌∙◌, Bool-cases, inl, inr, List, [], ◌∷◌, if◌then◌else◌}
use rtio.SyncMap.{load, bytes_eq}
use rtio.SyncMap.Laws.{load-store}
use rtio.Config.{ConfigKv, new_config_kv, set, get_with_default}

-- The calls of Set, the first at the head.
abbrev pub run {ℓ} : {T : Type ℓ} → List (List ℕ × T) → ConfigKv T → ConfigKv T
run [] c = c
run ((k, v) ∷ sets) c = run sets (set k v c)

-- The value of the last call with this key, or `v`.
abbrev pub last_value {ℓ} : {T : Type ℓ} → List ℕ → T → List (List ℕ × T) → T
last_value k v [] = v
last_value k v ((j, w) ∷ sets) = last_value k (if bytes_eq.beq j k then w else v) sets

module _ {ℓ} {T : Type ℓ} (k : List ℕ) (d : T) where
  get-set :
      (j : List ℕ) (w : T) (c : ConfigKv T)
      → get_with_default k d (set j w c) ≡ (if bytes_eq.beq j k then w else get_with_default k d c)
  unfolding get_with_default set
  get-set j w c = elim (Bool-cases (bytes_eq.beq j k)) [
    | inl e ↦ rw (load-store j k w c, e) refl
    | inr e ↦ rw (load-store j k w c, e) refl
  ]

  get-run :
      (sets : List (List ℕ × T)) (c : ConfigKv T)
      → get_with_default k d (run sets c) ≡ last_value k (get_with_default k d c) sets
  get-run [] c = refl
  get-run ((j, w) ∷ sets) c =
      get-run sets (set j w c) ∙ ap (λ v. last_value k v sets) (get-set j w c)

-- After any calls of Set on a new store, GetWithDefault gives the value of the last call with its key,
-- or the default if there was none.
get_with_default-run {ℓ} :
    {T : Type ℓ} (k : List ℕ) (d : T) (sets : List (List ℕ × T))
    → get_with_default k d (run sets new_config_kv) ≡ last_value k d sets
unfolding get_with_default load
get_with_default-run k d sets = get-run k d sets new_config_kv
