-- ===== src/Server/Incoming/Keeping.antt =====
-- Each method of the session keeps the heartbeat interval in its range.
use rtio.Prelude.{
  ℕ, ◌+◌, ◌/◌, ◌≤◌, ◌≡◌, Bool, true, false, Option, none, some, List, Outcome, ok, err, panic,
  arith, length, ◌||◌, ◌==◌, Outcome-cases, inl, inr,
}
use rtio.Proto.Types.{Error, get_cap_size}
use rtio.Proto.Header.{Header}
use rtio.Proto.Ping.{PingReq, decode_ping_req_body}
use rtio.Proto.Verify.{VerifydReq, decode_verify_req_body}
use rtio.Rest.Co.{CoReq, decode_co_req}
use rtio.Utils.{gen_uint32_id}
use rtio.SyncMap.{load, nat_eq}
use rtio.Rest.Observe.{ObGetNotifyReq, ObGetNotifyResp, decode_ob_get_notify_req}
use rtio.Proto.Send.{SendResp, decode_send_resp_body}
use rtio.Rest.Status
use rtio.Rest.Defs.{decode_method, constrained_get, constrained_post, observed_get}
use rtio.Server.State.{
  Session, Observa, M, ◌>>=◌, read_full, put_outgoing, get_session, modify, return,
  calcu_check_senconds,
}
use rtio.Server.State.Triples.{Ensures, Any, bind-Ensures, lift-Ensures, if_Ensures, ignore-Ensures}
use rtio.Server.Observing.{
  receive_ob_notify_req, send_ob_notify_resp, notify_found, notify_resp, notify,
}
use rtio.Server.Requesting.{server_send_respone, push_chan, answer}
use rtio.Server.Verifying.{
  Verifier, receive_verify_req, send_verify_resp, respond, accept, accept_level, judge,
}
use rtio.Server.Pinging.{device_ping_process, process_ping, update_heartbeat, send_ping_resp}
use rtio.Server.Resources.{Service, device_send_request, receive_co_req, query}

-- The interval that a session keeps: 300 seconds, or what a device may ask for.
abbrev pub InRange : Session → Type 0
InRange s = (30 ≤ s.heartbeat_seconds) × (s.heartbeat_seconds ≤ 43200)

-- One and a half times the interval, in uint16, does not wrap.
pub check_exact :
    (s : Session)
    → InRange s
    → calcu_check_senconds s.heartbeat_seconds ≡ s.heartbeat_seconds + s.heartbeat_seconds / 2
unfolding calcu_check_senconds
check_exact s h = omega arith

abbrev pub Keeps : {A : Type 0} → M A → Type 0
Keeps m = Ensures InRange Any m

abbrev seq :
    {A B : Type 0} (m : M A) (f : A → M B) → Keeps m → ((a : A) → Keeps (f a)) → Keeps (m >>= f)
seq m f h k = bind-Ensures InRange Any Any m f h (λ a _. k a)

pub read_keeps : (n : ℕ) → Keeps (read_full n)
unfolding read_full
read_keeps n = record { from = λ s p. ground arith }

put_keeps : (buf : List ℕ) → Keeps (put_outgoing buf)
put_keeps buf = record { from = λ s p. (p, tt) }

return_keeps : {A : Type 0} (a : A) → Keeps (return a)
return_keeps a = record { from = λ s p. (p, tt) }

respond_keeps : (h : Header) (b : Bool) (code : ℕ) → Keeps (respond h b code)
unfolding send_verify_resp
respond_keeps h b code = seq _ _ (seq _ _ (lift-Ensures InRange _) put_keeps) (λ a. return_keeps b)

accept_level_keeps : (h : Header) (r : Outcome Error ℕ) → Keeps (accept_level h r)
accept_level_keeps h (ok size) = record { from = λ s p. (p, tt) }
accept_level_keeps h (err e) = respond_keeps h true 1
accept_level_keeps h panic = respond_keeps h true 1

accept_keeps : (h : Header) (req : VerifydReq) → Keeps (accept h req)
accept_keeps h req = record {
  from = λ s p. (accept_level_keeps h (get_cap_size req.cap_level)).from _ p;
}

judge_keeps : (h : Header) (req : VerifydReq) (o : Option ℕ) → Keeps (judge h req o)
judge_keeps h req none = record { from = λ s p. (respond_keeps h s.verify_pass 0).from s p }
judge_keeps h req (some code) =
    if_Ensures InRange Any (code == 1) _ _ (accept_keeps h req) (respond_keeps h false 3)

pub verify_keeps : (d : Bool) (v : Verifier) (h : Header) → Keeps (receive_verify_req d v h)
unfolding receive_verify_req
verify_keeps d v h = seq _ _ (read_keeps h.body_len) λ buf.
    seq _ _ (lift-Ensures InRange (decode_verify_req_body (some h) buf)) λ req.
      if_Ensures InRange Any ((length req.device_id == 0) || (length req.device_secret == 0)) _ _
        (respond_keeps h false 4)
        (if_Ensures InRange Any d _ _ (accept_keeps h req) (
          if_Ensures InRange Any v.has_client _ _
            (seq _ _ (lift-Ensures InRange (gen_uint32_id v.random))
              λ id. judge_keeps h req (v.verify id req.device_id req.device_secret))
            (respond_keeps h false 0)))

update_keeps : (t : ℕ) → Keeps (update_heartbeat t)
update_keeps t = record { from = λ s p. ground arith }

ping_resp_keeps : (id code : ℕ) → Keeps (send_ping_resp id code)
ping_resp_keeps id code = seq _ _ (lift-Ensures InRange _) put_keeps

process_keeps : (r : Outcome Error PingReq) → Keeps (process_ping r)
process_keeps (ok req) = seq _ _ (update_keeps req.timeout) (ping_resp_keeps req.header.id)
process_keeps (err e) = record { from = λ s p. ground arith }
process_keeps panic = record { from = λ s p. (p, tt) }

pub ping_keeps : (h : Header) → Keeps (device_ping_process h)
unfolding device_ping_process
ping_keeps h =
    seq _ _ (read_keeps h.body_len) λ buf. process_keeps (decode_ping_req_body (some h) buf)

notified_keeps : (resp : ObGetNotifyResp) → Keeps (send_ob_notify_resp resp)
unfolding send_ob_notify_resp
notified_keeps resp = seq _ _ (lift-Ensures InRange _) put_keeps

found_keeps : (req : ObGetNotifyReq) (o : Option Observa) → Keeps (notify_found req o)
found_keeps req none = ignore-Ensures InRange _ (notified_keeps (notify_resp req Status.terminate))
found_keeps req (some ob) = record {
  from = λ s p.
      (ignore-Ensures InRange _ (notified_keeps (notify_resp req Status.continue))).from
        (notify req ob s).1 p;
}

notify_keeps : (h : Header) (buf : List ℕ) → Keeps (receive_ob_notify_req h buf)
unfolding receive_ob_notify_req
notify_keeps h buf = record {
  from = λ s p. elim (Outcome-cases (decode_ob_get_notify_req h.id buf)) [
    | inl (req, e) ↦
        rw (e, receive_ob_notify_req) ((found_keeps req (load req.ob_id s.observa_store)).from s p)
    | inr (inl (x, e)) ↦ rw (e, receive_ob_notify_req) (p, tt)
    | inr (inr e) ↦ rw (e, receive_ob_notify_req) (p, tt)
  ];
}

get_keeps : {A : Type 0} (f : Session → A) → Keeps (get_session >>= λ s. return (f s))
get_keeps f = record { from = λ s p. (p, tt) }

query_keeps : (d : Bool) (v : Service) (req : CoReq) → Keeps (query d v req)
query_keeps true v req = record { from = λ s p. (p, tt) }
query_keeps false v req =
    seq {A = ℕ} _ _ (lift-Ensures InRange (gen_uint32_id v.random)) λ id. get_keeps (λ s. _)

co_keeps : (d : Bool) (v : Service) (h : Header) (buf : List ℕ) → Keeps (receive_co_req d v h buf)
unfolding receive_co_req
co_keeps d v h buf = seq _ _ (lift-Ensures InRange (decode_co_req h.id buf)) λ req.
    seq _ _ (query_keeps d v req)
      λ r. ignore-Ensures InRange _ (seq _ _ (lift-Ensures InRange _) put_keeps)

pub send_keeps : (d : Bool) (v : Service) (h : Header) → Keeps (device_send_request d v h)
unfolding device_send_request
send_keeps d v h = seq _ _ (read_keeps h.body_len) λ buf.
    seq _ _ (lift-Ensures InRange (decode_method buf)) λ method.
      if_Ensures InRange Any (method == constrained_get || method == constrained_post) _ _
        (co_keeps d v h buf)
        (if_Ensures InRange Any (method == observed_get) _ _ (notify_keeps h buf) (return_keeps tt))

push_keeps : (c : ℕ) (b : List ℕ) → Keeps (modify (push_chan c b))
unfolding push_chan
push_keeps c b = record { from = λ s p. (p, tt) }

answer_keeps : (h : Header) (o : Option ℕ) → Keeps (answer h o)
unfolding push_chan
answer_keeps h none = record { from = λ s p. (p, tt) }
answer_keeps h (some c) = seq _ _ (read_keeps h.body_len) λ buf.
    seq {A = SendResp} _ _ (lift-Ensures InRange (decode_send_resp_body (some h) buf))
      λ resp. push_keeps c _

pub respone_keeps : (h : Header) → Keeps (server_send_respone h)
unfolding server_send_respone
respone_keeps h = record { from = λ s p. (answer_keeps h _).from s p }
