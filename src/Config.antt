-- ===== src/Config.antt =====
-- pkg/config/config.go: the stores of the program's settings.
pub mod Settings
use rtio.Prelude.{ℕ, Bool, true, false, Option, none, some, List, []}
use rtio.SyncMap.{SyncMap, load, store, bytes_eq}

abbrev pub ConfigKv {ℓ} : Type ℓ → Type ℓ
ConfigKv T = SyncMap (List ℕ) T

abbrev pub new_config_kv {ℓ} : {T : Type ℓ} → ConfigKv T
new_config_kv = []

unfoldable pub set {ℓ} : {T : Type ℓ} → List ℕ → T → ConfigKv T → ConfigKv T
set k v c = store k v c

abbrev found {ℓ} : {T : Type ℓ} → T → Option T → T × Bool
found t none = (t, false)
found t (some v) = (v, true)

-- `t` is the zero value of the type.
unfoldable pub get {ℓ} : {T : Type ℓ} → T → List ℕ → ConfigKv T → T × Bool
get t k c = found t (load k c)

abbrev or_default {ℓ} : {T : Type ℓ} → T → Option T → T
or_default d none = d
or_default d (some v) = v

unfoldable pub get_with_default {ℓ} : {T : Type ℓ} → List ℕ → T → ConfigKv T → T
get_with_default k d c = or_default d (load k c)
