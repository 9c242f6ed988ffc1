-- ===== src/Server/Observing/Examples.antt =====
-- Observations on concrete sessions.
use rtio.Prelude.{ℕ, ◌+◌, ◌≡◌, refl, false, List, [], ◌∷◌, length, ok, arith}
use rtio.Rest.Observe.{ObGetNotifyReq, decode_ob_get_notify_req}
use rtio.SyncMap.{load, nat_eq}
use rtio.Server.State.{Session, Observa, new_session}
use rtio.Server.Observing.Counting.{
  IsValid, create, destroy, run, run-new_session-IsValid, reused_id_leaks,
}

-- An observation 1, and the rolling id about to wrap to it.
abbrev observa : Observa
observa = record { id = 1; frame_id = 0; notify_chan = []; session_done = false }

abbrev wrapped : Session
wrapped = record (new_session []) {
  observa_store = (1, observa) ∷ [];
  rolling_observa_id = 65536;
  observa_count = 1;
}

run-new_session-IsValid_example :
    IsValid (run (create ∷ create ∷ destroy 1 ∷ destroy 9 ∷ []) (new_session []))
run-new_session-IsValid_example =
    run-new_session-IsValid (create ∷ create ∷ destroy 1 ∷ destroy 9 ∷ []) []

reused_id_leaks_example :
    let t = run (create ∷ destroy 1 ∷ destroy 1 ∷ []) wrapped in
    (t.observa_count ≡ 1) × (length t.observa_store + 1 ≡ 1)
unfolding load
reused_id_leaks_example = reused_id_leaks wrapped observa (refl, tt) (omega arith) refl

abbrev notify_req : ObGetNotifyReq
notify_req = record { header_id = 9; method = 1; code = 3; ob_id = 1; payload = 42 ∷ [] }

abbrev notify_body : List ℕ
notify_body = 19 ∷ 0 ∷ 1 ∷ 42 ∷ []

decode_notify_body : decode_ob_get_notify_req 9 notify_body ≡ ok notify_req
unfolding decode_ob_get_notify_req
decode_notify_body = refl
