-- ===== src/Rpc/Observe/Balance.antt =====
-- An observation that a user makes is given back when ObGet returns.
use rtio.Prelude.{
  ℕ, ◌+◌, ◌-◌, ◌<◌, ◌≡◌, refl, ◌∙◌, some, List, length, ltb, ◌==◌, Outcome, ok, err, panic, arith,
  inl, inr, Bool-cases, replicate, u16, not,
}
use rtio.Proto.Types.{Error}
use rtio.Rest.Status
use rtio.Rest.Defs.{observed_get}
use rtio.Rest.Observe.{
  ObGetEstabResp, decode_ob_get_estab_resp, encode_ob_get_estab_req_over_server_send_req,
}
use rtio.SyncMap.{load, nat_eq}
use rtio.Server.State.{
  Fault, Observa, Session, M, gen_header_id, lift, return, raise, ◌>>=◌, ◌>>◌, put_outgoing,
}
use rtio.Server.State.Triples.{Returns, Ensures, Any, bind-Ensures, lift-Ensures, if_Ensures}
use rtio.Server.Observing.{
  Arrival, body, closed, timeout, create_observa, destroy_observa, ob_get_establish,
  send_ob_estab_req, receive_ob_estab_resp, estab_status, open_resp_chan,
}
use rtio.Server.Observing.Counting.{create_observa_outcomes, fresh, next_id}
use rtio.Rpc.Calls.{Env, Req, capacity_less}
use rtio.Rpc.Observe.{ObGetResp, Meanwhile, observe_session, established, then_destroy}

-- The session has counted n observations, and the one with this id is in the store.
abbrev Has : ℕ → ℕ → Session → Type 0
Has n id s = (s.observa_count ≡ n) × ((ob : Observa) × (load id s.observa_store ≡ some ob))

-- While the call waits, the rest of the program destroys as many observations as it creates, and
-- leaves this one.
pub record IsQuiet (env : Env) (notices : Meanwhile) : Type 0 where
  pub wait_keeps : (c : ℕ) (s : Session) (n id : ℕ) → Has n id s → Has n id (env.wait c s).1
  pub notices_keep : (s : Session) (n id : ℕ) → Has n id s → Has n id (notices s).1

abbrev Keeps : ℕ → ℕ → {A : Type 0} → M A → Type 0
Keeps n id m = Ensures (Has n id) Any m

module _ (n id : ℕ) where
  seq :
      {A B : Type 0} (m : M A) (f : A → M B)
      → Keeps n id m
      → ((a : A) → Keeps n id (f a))
      → Keeps n id (m >>= f)
  seq m f h k = bind-Ensures (Has n id) Any Any m f h (λ a _. k a)

  return_keeps : {A : Type 0} (a : A) → Keeps n id (return a)
  return_keeps a = record { from = λ s p. (p, tt) }

  raise_keeps : {A : Type 0} (e : Fault) → Keeps n id (raise {A = A} e)
  raise_keeps e = record { from = λ s p. (p, tt) }

  -- The rest of a request, once its frame is encoded or is not.
  opened_keeps :
      (now header_id : ℕ) (x : Outcome Error (List ℕ))
      → Keeps n id (do buf ← lift x; c ← open_resp_chan now header_id; put_outgoing buf; return c)
  unfolding open_resp_chan
  opened_keeps now header_id (ok buf) = record { from = λ s p. (p, tt) }
  opened_keeps now header_id (err e) = record { from = λ s p. (p, tt) }
  opened_keeps now header_id panic = record { from = λ s p. (p, tt) }

  any : {A : Type 0} (r : Outcome Fault A) → Returns Any r
  any (ok a) = tt
  any (err e) = tt
  any panic = tt

  send_keeps :
      (now : ℕ) (ob : Observa) (uri header_id : ℕ) (payload : List ℕ)
      → Keeps n id (send_ob_estab_req now ob uri header_id payload)
  unfolding send_ob_estab_req
  send_keeps now ob uri header_id payload = opened_keeps now header_id (
      encode_ob_get_estab_req_over_server_send_req
        (record {
          header_id = header_id;
          method = observed_get;
          ob_id = ob.id;
          uri = uri;
          payload = payload;
        })
        (replicate (u16 (12 + u16 (length payload))) 0))

  status_keeps :
      (ob : Observa) (header_id : ℕ) (a : Arrival) → Keeps n id (estab_status ob header_id a)
  status_keeps ob header_id closed = raise_keeps _
  status_keeps ob header_id timeout = raise_keeps _
  status_keeps ob header_id (body b) =
      seq {A = ObGetEstabResp} _ _ (lift-Ensures (Has n id) (decode_ob_get_estab_resp header_id b))
        λ resp. if_Ensures (Has n id) Any (not (resp.ob_id == ob.id)) _ _ (raise_keeps _) (
          if_Ensures (Has n id) Any (not (resp.method == observed_get)) _ _ (return_keeps _)
            (return_keeps _))

  receive_keeps :
      (ob : Observa) (header_id : ℕ) (a : Arrival)
      → Keeps n id (receive_ob_estab_resp ob header_id a)
  unfolding receive_ob_estab_resp
  receive_keeps ob header_id a = record { from = λ s p. (status_keeps ob header_id a).from _ p }

  establish_keeps :
      (now uri : ℕ) (ob : Observa) (payload : List ℕ) (wait : ℕ → M Arrival)
      → ((c : ℕ) (s : Session) → Has n id s → Has n id (wait c s).1)
      → Keeps n id (ob_get_establish now uri ob payload wait)
  unfolding ob_get_establish gen_header_id
  establish_keeps now uri ob payload wait k = record {
    from = λ s p.
        (seq {A = ℕ} _ _ (send_keeps now ob uri _ payload) λ c.
            seq {A = Arrival} (wait c) _ (record { from = λ t q. (k c t q, any (wait c t).0) })
              λ a. receive_keeps ob _ a).from
          _ p;
  }

-- What ObGet sends once the observation is there, and after it waited, keeps the observation.
established_keeps :
    (n id : ℕ) (notices : Meanwhile) (req : Req)
    → ((s : Session) → Has n id s → Has n id (notices s).1)
    → (r : Outcome Fault ℕ × Session) → Has n id r.1
    → Has n id (established notices req r).1
established_keeps n id notices req k (ok status, s) h =
    elim (Bool-cases (status == Status.continue)) [ inl e ↦ rw e (k s h) | inr e ↦ rw e h ]
established_keeps n id notices req k (err e, s) h = h
established_keeps n id notices req k (panic, s) h = h

destroy_lem :
    (n id : ℕ) (r : Outcome Fault (List ObGetResp) × Session)
    → Has n id r.1
    → (then_destroy id r).1.observa_count ≡ n - 1
unfolding destroy_observa
destroy_lem n id r (e, (ob, q)) = rw (q, destroy_observa) (ground arith)

created_Has :
    (s : Session)
    → s.observa_count < 256
    → Has (s.observa_count + 1) (next_id s) (create_observa s).1
created_Has s lt = elim (create_observa_outcomes s) [
  | inl full ↦ absurd (omega arith)
  | inr (h, e, count, loads) ↦ (count, (fresh s, ground (arith, loads (next_id s))))
]

-- The observation `ob`, from its establishment to its destruction.
ended_lem :
    (env : Env) (notices : Meanwhile) (req : Req) (ob : Observa) (n : ℕ) (t : Session)
    → IsQuiet env notices
    → Has (n + 1) ob.id t
    → (then_destroy ob.id (
        established notices req (
          ob_get_establish env.now
            (env.checksum req.uri)
            ob
            req.payload
            env.wait
            t))).1.observa_count
      ≡ n
ended_lem env notices req ob n t q h =
    let r = ob_get_establish env.now (env.checksum req.uri) ob req.payload env.wait t in
    let k =
      (establish_keeps (n + 1) ob.id env.now (env.checksum req.uri) ob req.payload env.wait
          (λ c u. q.wait_keeps c u (n + 1) ob.id)).from
        t h in
    destroy_lem (n + 1) ob.id (established notices req r)
      (established_keeps (n + 1) ob.id notices req (λ u. q.notices_keep u (n + 1) ob.id) r k.0)
    ∙ omega arith

pub observe_session_balanced :
    (env : Env) (notices : Meanwhile) (req : Req) (s : Session)
    → IsQuiet env notices
    → (observe_session env notices req s).1.observa_count ≡ s.observa_count
unfolding observe_session
observe_session_balanced env notices req s q =
    elim (Bool-cases (ltb (capacity_less 7 s) (length req.payload))) [
      | inl over ↦ rw over refl
      | inr fits ↦ elim (create_observa_outcomes s) [
        | inl (full, e) ↦ rw (fits, e) refl
        | inr (lt, e, count, loads) ↦
            rw (fits, e)
              (ended_lem env notices req (fresh s) s.observa_count (create_observa s).1 q
                (created_Has s lt))
      ]
    ]
