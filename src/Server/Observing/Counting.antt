-- ===== src/Server/Observing/Counting.antt =====
-- observaCount against the observations in the store.
use rtio.Prelude.{
  ℕ, false, ap, sym, subst, ◌∙◌, ◌⊎◌, ◌==◌, ==_iff, ==_refl, dec_lt, ◌+◌, ◌-◌, ◌≤◌, ◌<◌, ◌≡◌, inl,
  inr, Option-cases, none, some, List, [], ◌∷◌, length, if◌then◌else◌, u16, u32, Outcome, ok, err,
  arith,
}
use rtio.Rest.Status
use rtio.SyncMap.{load, store, delete, nat_eq}
use rtio.SyncMap.Laws.{
  IsMap, store-IsMap, delete-IsMap, length-store, length-delete, load-store, load-delete,
}
use rtio.Server.State.{Fault, status, Observa, Session, new_session}
use rtio.Server.Observing.{create_observa, destroy_observa}

-- Between two calls: no id occurs twice in the store, the counter is no less than the number of
-- observations, and at most OBGET_OBSERVATIONS_MAX.
pub record IsValid (s : Session) : Type 0 where
  pub distinct : IsMap s.observa_store
  pub counted : length s.observa_store ≤ s.observa_count
  pub bounded : s.observa_count ≤ 256

-- The id that the next observation gets.
abbrev pub next_id : Session → ℕ
next_id s = u16 (u32 (s.rolling_observa_id + 1))

abbrev pub fresh : Session → Observa
fresh s = record { id = next_id s; frame_id = 0; notify_chan = []; session_done = false }

create_observa-IsValid : (s : Session) → IsValid s → IsValid (create_observa s).1
unfolding create_observa
create_observa-IsValid s v = ground (
  arith,
  store-IsMap (next_id s) (fresh s) s.observa_store v.distinct,
  length-store (next_id s) (fresh s) s.observa_store,
)

destroy_observa-IsValid : (id : ℕ) (s : Session) → IsValid s → IsValid (destroy_observa id s).1
unfolding destroy_observa
destroy_observa-IsValid id s v = elim (Option-cases (load id s.observa_store)) [
  | inl e ↦ rw (e, destroy_observa) v
  | inr (ob, e) ↦
      rw (e, destroy_observa)
        (record {
          distinct = delete-IsMap id s.observa_store v.distinct;
          counted = omega (arith, length-delete id ob s.observa_store v.distinct e);
          bounded = omega arith;
        })
]

-- CreateObserva fails exactly when the counter has reached 256, with TooManyObservations, and then
-- leaves the session as it was. Otherwise the new observation is stored under its id, next to the
-- others, and the counter has grown by one.
pub create_observa_outcomes :
    (s : Session)
    → ((256 ≤ s.observa_count)
        × (create_observa s ≡ (err (status Status.too_many_observations), s)))
      ⊎ ((s.observa_count < 256)
          × ((create_observa s).0 ≡ ok (fresh s))
          × ((create_observa s).1.observa_count ≡ s.observa_count + 1)
          × ((j : ℕ)
              → load j (create_observa s).1.observa_store
                ≡ (if next_id s == j then some (fresh s) else load j s.observa_store)))
unfolding create_observa
create_observa_outcomes s = elim (dec_lt s.observa_count 256) [
  | yes h ↦ inr (
    h,
    ground arith,
    ground arith,
    λ j. ground (arith, load-store (next_id s) j (fresh s) s.observa_store),
  )
  | no h ↦ inl (omega arith, ground arith)
]

pub data Call : Type 0 where
  create : Call
  destroy : ℕ → Call

abbrev pub step : Call → Session → Session
step create s = (create_observa s).1
step (destroy id) s = (destroy_observa id s).1

abbrev pub run : List Call → Session → Session
run [] s = s
run (c ∷ cs) s = run cs (step c s)

run-IsValid : (cs : List Call) (s : Session) → IsValid s → IsValid (run cs s)
run-IsValid [] s v = v
run-IsValid (create ∷ cs) s v = run-IsValid cs _ (create_observa-IsValid s v)
run-IsValid (destroy id ∷ cs) s v = run-IsValid cs _ (destroy_observa-IsValid id s v)

-- Whatever calls of CreateObserva and DestroyObserva a new session has seen, one after the other,
-- its store has no id twice, and holds no more observations than the counter says, which is at
-- most 256. So the counter's decrement never meets 0.
pub run-new_session-IsValid : (cs : List Call) (conn : List ℕ) → IsValid (run cs (new_session conn))
unfolding new_session
run-new_session-IsValid cs conn =
    run-IsValid cs _ (record { distinct = tt; counted = omega arith; bounded = omega arith })

abbrev pub created : Session → Session
created s = record s {
  rolling_observa_id = u32 (s.rolling_observa_id + 1);
  observa_store = store (next_id s) (fresh s) s.observa_store;
  observa_count = s.observa_count + 1;
}

pub create_lem :
    (s : Session) → s.observa_count < 256 → create_observa s ≡ (ok (fresh s), created s)
unfolding create_observa
create_lem s h = ground arith

destroy_found :
    (id : ℕ) (s : Session) (ob : Observa)
    → load id s.observa_store ≡ some ob
    → (destroy_observa id s).1
      ≡ record s { observa_store = delete id s.observa_store; observa_count = s.observa_count - 1 }
unfolding destroy_observa
destroy_found id s ob e = rw (e, destroy_observa)

destroy_missing :
    (id : ℕ) (s : Session) → load id s.observa_store ≡ none → (destroy_observa id s).1 ≡ s
unfolding destroy_observa
destroy_missing id s e = rw (e, destroy_observa)

load-fresh : (s : Session) → load (next_id s) (created s).observa_store ≡ some (fresh s)
load-fresh s =
    rw (load-store (next_id s) (next_id s) (fresh s) s.observa_store, ==_refl (next_id s))

step_create : (s : Session) → s.observa_count < 256 → step create s ≡ created s
step_create s h = ap (λ (r : Outcome Fault Observa × Session). r.1) (create_lem s h)

-- After both calls.
abbrev undone : Session → Session
undone s = record (created s) {
  observa_store = delete (next_id s) (created s).observa_store;
  observa_count = s.observa_count + 1 - 1;
}

step_destroy :
    (s : Session) → s.observa_count < 256 → step (destroy (next_id s)) (step create s) ≡ undone s
step_destroy s h =
    ap (step (destroy (next_id s))) (step_create s h)
    ∙ destroy_found (next_id s) (created s) (fresh s) (load-fresh s)

-- Where the new id is free, destroying the new observation takes the counter and every entry of
-- the store back to what they were.
destroy-create :
    (s : Session)
    → s.observa_count < 256
    → load (next_id s) s.observa_store ≡ none
    → let t = step (destroy (next_id s)) (step create s) in
      (t.observa_count ≡ s.observa_count)
      × ((j : ℕ) → load j t.observa_store ≡ load j s.observa_store)
destroy-create s h free =
    subst
      (λ t.
        (t.observa_count ≡ s.observa_count)
        × ((j : ℕ) → load j t.observa_store ≡ load j s.observa_store))
      (sym (step_destroy s h))
      (
        omega arith,
        λ j. ground (
          arith,
          load-delete (next_id s) j (created s).observa_store,
          load-store (next_id s) j (fresh s) s.observa_store,
          ==_iff (next_id s) j,
        ),
      )

undone_missing : (s : Session) → step (destroy (next_id s)) (undone s) ≡ undone s
undone_missing s =
    destroy_missing (next_id s) (undone s)
      (rw (load-delete (next_id s) (next_id s) (created s).observa_store, ==_refl (next_id s)))

pub reused_id_leaks :
    (s : Session) (ob : Observa)
    → IsMap s.observa_store
    → s.observa_count < 256
    → load (next_id s) s.observa_store ≡ some ob
    → let t = run (create ∷ destroy (next_id s) ∷ destroy (next_id s) ∷ []) s in
      (t.observa_count ≡ s.observa_count) × (length t.observa_store + 1 ≡ length s.observa_store)
reused_id_leaks s ob u h used =
    subst
      (λ t.
        (t.observa_count ≡ s.observa_count) × (length t.observa_store + 1 ≡ length s.observa_store))
      (sym (ap (step (destroy (next_id s))) (step_destroy s h) ∙ undone_missing s))
      (
        omega arith,
        ground (
          arith,
          length-store (next_id s) (fresh s) s.observa_store,
          length-delete (next_id s) (fresh s) (created s).observa_store
              (store-IsMap (next_id s) (fresh s) s.observa_store u) (load-fresh s),
        ),
      )
