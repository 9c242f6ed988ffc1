-- ===== src/Server/Incoming/Heartbeat.antt =====
-- The heartbeat interval stays in its range through every message that tcpIncomming handles, and its
-- check never wraps.
use rtio.Prelude.{
  ℕ, ◌≤◌, Bool, true, false, List, [], ◌∷◌, ◌++◌, Outcome, ok, err, panic, arith, ◌==◌,
}
use rtio.Proto.Types.{Error, device_verify_req, device_ping_req, device_send_req, server_send_resp}
use rtio.Proto.Header.{Header, decode_header}
use rtio.SyncMap.{nat_eq}
use rtio.Server.State.{Fault, err_data_type, raise, Session, M, ◌>>◌, new_session}
use rtio.Server.State.Triples.{Ensures, Any, Returns, bind-Ensures, if_Ensures}
use rtio.Server.Incoming.{
  Config, Effect, add_session, reset_heartbeat, incomming_step, dispatch, header_or_err, passed,
  reset, Trace, continue_with, tcp_incomming,
}
use rtio.Server.Incoming.Keeping.{
  InRange, check_exact, Keeps, read_keeps, verify_keeps, ping_keeps, send_keeps, respone_keeps,
}

-- A timer is reset to 45 seconds at least and 18 hours at most.
abbrev pub IsSound : Effect → Type 0
IsSound (add_session id) = Unit
IsSound (reset_heartbeat n) = (45 ≤ n) × (n ≤ 64800)

abbrev pub AreSound : List Effect → Type 0
AreSound [] = Unit
AreSound (e ∷ es) = IsSound e × AreSound es

reset-Ensures : Ensures InRange AreSound reset
reset-Ensures = record { from = λ s p. (p, (omega (arith, check_exact s p), tt)) }

then_reset : (m : M (Unit {0})) → Keeps m → Ensures InRange AreSound (m >> reset)
then_reset m h = bind-Ensures InRange Any AreSound m _ h (λ a _. reset-Ensures)

passed-Ensures : (b : Bool) → Ensures InRange AreSound (passed b)
passed-Ensures true = record { from = λ s p. (p, (tt, tt)) }
passed-Ensures false = record { from = λ s p. (p, tt) }

raise-Ensures : (e : Fault) → Ensures InRange AreSound (raise e)
raise-Ensures e = record { from = λ s p. (p, tt) }

dispatch-Ensures : (c : Config) (h : Header) → Ensures InRange AreSound (dispatch c h)
dispatch-Ensures c h =
    if_Ensures InRange AreSound (h.msg_type == device_verify_req) _ _
      (bind-Ensures InRange Any AreSound _ _ (verify_keeps c.disable_deviceverify c.verifier h)
        (λ b _. passed-Ensures b))
      (if_Ensures InRange AreSound (h.msg_type == device_ping_req) _ _ (then_reset _ (ping_keeps h))
        (if_Ensures InRange AreSound (h.msg_type == device_send_req) _ _
          (then_reset _ (send_keeps c.disable_deviceservice c.service h))
          (if_Ensures InRange AreSound (h.msg_type == server_send_resp) _ _
            (then_reset _ (respone_keeps h)) (raise-Ensures err_data_type))))

header_keeps : (r : Outcome Error Header) → Keeps (header_or_err r)
header_keeps (ok h) = record { from = λ s p. (p, tt) }
header_keeps (err e) = record { from = λ s p. (p, tt) }
header_keeps panic = record { from = λ s p. (p, tt) }

step-Ensures : (c : Config) → Ensures InRange AreSound (incomming_step c)
unfolding incomming_step
step-Ensures c = bind-Ensures InRange Any AreSound _ _ (read_keeps 5) λ buf _.
    bind-Ensures InRange Any AreSound _ _ (header_keeps (decode_header buf))
      λ h _. dispatch-Ensures c h

append-AreSound : (es fs : List Effect) → AreSound es → AreSound fs → AreSound (es ++ fs)
append-AreSound [] fs h k = k
append-AreSound (e ∷ es) fs h k = (h.0, append-AreSound es fs h.1 k)

-- What is left at the end of a run.
abbrev EndsWell : Trace → Type 0
EndsWell t = InRange t.session × AreSound t.effects

round_ensures :
    (loop : List Effect → Session → Trace)
    → ((es : List Effect) (s : Session) → AreSound es → InRange s → EndsWell (loop es s))
    → (es : List Effect) (r : Outcome Fault (List Effect) × Session) → AreSound es
    → InRange r.1 × Returns AreSound r.0
    → EndsWell (continue_with loop es r)
round_ensures loop k es (ok fs, t) h q = k (es ++ fs) t (append-AreSound es fs h q.1) q.0
round_ensures loop k es (err e, t) h q = (q.0, h)
round_ensures loop k es (panic, t) h q = (q.0, h)

loop_ensures :
    (cs : List Config) (es : List Effect) (s : Session)
    → AreSound es
    → InRange s
    → EndsWell (tcp_incomming cs es s)
unfolding tcp_incomming
loop_ensures [] es s h p = (p, h)
loop_ensures (c ∷ cs) es s h p =
    round_ensures (tcp_incomming cs) (loop_ensures cs) es (incomming_step c s) h
      ((step-Ensures c).from s p)

-- Whatever a device sends, and whatever the backends answer, the heartbeat interval of a new session
-- stays between 30 and 43200 seconds to the end of the loop, and each time the loop resets the
-- heartbeat timer it is to between 45 and 64800 seconds: the uint16 sum of one and a half times the
-- interval never wraps.
pub tcp_incomming_heartbeat :
    (cs : List Config) (conn : List ℕ)
    → InRange (tcp_incomming cs [] (new_session conn)).session
      × AreSound (tcp_incomming cs [] (new_session conn)).effects
unfolding new_session
tcp_incomming_heartbeat cs conn = loop_ensures cs [] _ tt (omega arith)
