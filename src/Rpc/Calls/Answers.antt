-- ===== src/Rpc/Calls/Answers.antt =====
-- When a user's call is answered by CODE_OK, and with what.
use rtio.Prelude.{
  ℕ, ◌≤◌, ◌≡◌, ◌↔◌, refl, some, List, length, ltb, Outcome, ok, err, panic, arith, Option-cases,
  inl, inr, Bool-cases, subst,
}
use rtio.Rest.Status
use rtio.Rest.Defs.{constrained_get}
use rtio.Server.State.{Fault, Session}
use rtio.Server.Requesting.{send}
use rtio.Server.Sessions.{get_session_of}
use rtio.Rpc.Codes.{code_ok, trans_to_rpc_code}
use rtio.Rpc.Calls.{AccessServer, Env, Req, Resp, capacity_less, get, call_session, sent_result}

abbrev ok_resp : Req → List ℕ → Resp
ok_resp req payload = record { id = req.id; code = code_ok; payload = payload }

-- The session answers the call with the status OK and this payload.
abbrev pub Succeeds : ℕ → Env → Req → List ℕ → Session → Type 0
Succeeds method env req payload s =
    (length req.payload ≤ capacity_less 1 s)
    × ((send env.now (env.checksum req.uri) method req.payload env.wait s).0
        ≡ ok (Status.success, payload))

trans_ok : (code : ℕ) → trans_to_rpc_code code ≡ code_ok → code ≡ Status.success
trans_ok code e = ground arith

sent_ok :
    (req : Req) (payload : List ℕ) (r : Outcome Fault (ℕ × List ℕ) × Session)
    → ((sent_result req r).0 ≡ ok (ok_resp req payload)) ↔ (r.0 ≡ ok (Status.success, payload))
sent_ok req payload (ok (code, p), s) = (λ e. ground (arith, trans_ok code), λ e. ground arith)
sent_ok req payload (err e, s) = (λ h. ground arith, λ h. ground arith)
sent_ok req payload (panic, s) = (λ h. ground arith, λ h. ground arith)

call_session_ok :
    (method : ℕ) (env : Env) (req : Req) (payload : List ℕ) (s : Session)
    → ((call_session method env req s).0 ≡ ok (ok_resp req payload))
      ↔ Succeeds method env req payload s
unfolding call_session
call_session_ok method env req payload s =
    elim (Bool-cases (ltb (capacity_less 1 s) (length req.payload))) [
      | inl over ↦ rw over (λ h. ground arith, λ h. ground arith)
      | inr fits ↦ rw fits (
        λ h. (
          ground arith,
          (sent_ok req payload
                (send env.now (env.checksum req.uri) method req.payload env.wait s)).0
              h,
        ),
        λ h.
            (sent_ok req payload
                (send env.now (env.checksum req.uri) method req.payload env.wait s)).1
              h.1,
      )
    ]

-- A user's Get is answered by CODE_OK and a payload exactly when the device has a session in the
-- map, the request fits its capacity by the check, and Send on that session returns the device's
-- status OK with this payload.
pub get_ok_iff :
    (env : Env) (req : Req) (a : AccessServer) (payload : List ℕ)
    → ((get env req a).0 ≡ ok (record { id = req.id; code = code_ok; payload = payload })) ↔ (
        (h : ℕ) × (get_session_of req.device_id a.sessions ≡ some h)
        × Succeeds constrained_get env req payload (a.objects h))
unfolding get
get_ok_iff env req a payload = elim (Option-cases (get_session_of req.device_id a.sessions)) [
  | inl e ↦ rw e (λ h. ground arith, λ q. ground (arith, q.1))
  | inr (h, e) ↦
      rw (e, get)
        (
          λ q. (h, refl, (call_session_ok constrained_get env req payload (a.objects h)).0 q),
          λ q. (call_session_ok constrained_get env req payload (a.objects h)).1 (
              subst (λ k. Succeeds constrained_get env req payload (a.objects k))
                (ground (arith, q.1)) q.2),
        )
]
