-- ===== src/Rpc/Examples.antt =====
-- Calls of users on a concrete server.
use rtio.Prelude.{ℕ, ◌+◌, ◌<◌, ◌≡◌, ◌↔◌, some, List, [], ◌∷◌, ◌++◌, length, ok, arith}
use rtio.Proto.Types.{server_send_req}
use rtio.Proto.Header.{decode_header}
use rtio.Rest.Defs.{constrained_get}
use rtio.Rest.Framing.{frame_header}
use rtio.Server.State.{Session, new_session}
use rtio.Server.Requesting.Sending.{next_header_id}
use rtio.Server.Sessions.{get_session_of}
use rtio.Rpc.Codes.{code_ok}
use rtio.Rpc.Calls.{AccessServer, Env, Req, get, call_session}
use rtio.Rpc.Calls.Answers.{Succeeds, get_ok_iff}
use rtio.Rpc.Calls.Capacity.{silent, call_session_over_capacity}
use rtio.Rpc.Observe.{Meanwhile, session_done, observe_session}
use rtio.Rpc.Observe.Balance.{IsQuiet, observe_session_balanced}

abbrev req : Req
req = record { id = 9; device_id = b'a' ∷ []; uri = b'/' ∷ []; payload = 1 ∷ 2 ∷ 3 ∷ [] }

abbrev env : Env
env = record { checksum = λ uri. 77; now = 4; wait = silent }

-- A device of capacity level 0, if it had 5 bytes.
abbrev small : Session
small = record (new_session []) { body_cap_size = 5 }

abbrev server : AccessServer
server = record { sessions = (b'a' ∷ [], 3) ∷ []; objects = λ h. small }

get_ok_iff_example :
    ((get env req server).0 ≡ ok (record { id = 9; code = code_ok; payload = 7 ∷ [] })) ↔ (
      (h : ℕ) × (get_session_of (b'a' ∷ []) server.sessions ≡ some h)
      × Succeeds constrained_get env req (7 ∷ []) (server.objects h))
get_ok_iff_example = get_ok_iff env req server (7 ∷ [])

call_session_over_capacity_example :
    (frame : List ℕ) × ((call_session constrained_get
        (record env { wait = silent })
        req
        small).1.outgoing_chan
      ≡ small.outgoing_chan ++ (frame ∷ []))
    × (decode_header frame
        ≡ ok (frame_header server_send_req (next_header_id small) (5 + length req.payload)))
    × (small.body_cap_size < 5 + length req.payload)
call_session_over_capacity_example =
    call_session_over_capacity constrained_get env req small (omega arith) (omega arith)
      (omega arith) (omega arith) (omega arith) (omega arith)

-- The user's stream ends at once.
abbrev notices : Meanwhile
notices s = (session_done ∷ [], s)

quiet : IsQuiet env notices
quiet = record { wait_keeps = λ c s n id h. h; notices_keep = λ s n id h. h }

observe_session_balanced_example :
    (observe_session env notices req small).1.observa_count ≡ small.observa_count
observe_session_balanced_example = observe_session_balanced env notices req small quiet
