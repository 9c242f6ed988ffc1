-- ===== src/Device/Examples.antt =====
-- A device whose handler fails, and one that connects again.
use rtio.Prelude.{◌≡◌, refl, true, inl, none, some, [], ◌∷◌, ◌++◌, replicate, arith}
use rtio.Proto.Types.{server_send_req}
use rtio.Rest.Defs.{constrained_get}
use rtio.Rest.Co.{CoReq}
use rtio.Rest.Co.Frames.{co_req_frame}
use rtio.SyncMap.{load}
use rtio.Device.State.{DeviceSession, Handler, handler_error, new_device_session}
use rtio.Device.Incoming.{tcp_incomming, stopped}
use rtio.Device.Incoming.Failing.{handler_error_stops}
use rtio.Device.Serving.{recover}
use rtio.Device.Serving.Recovering.{backoff, recover_connects}

abbrev req : CoReq
req = record { header_id = 5; method = constrained_get; uri = 77; payload = 1 ∷ 2 ∷ [] }

-- A handler that only answers an empty request.
abbrev picky : Handler
picky [] = some []
picky (b ∷ bs) = none

abbrev device : DeviceSession
device = record (new_device_session (co_req_frame server_send_req req ++ (9 ∷ [])) [] []) {
  reg_get_handler_map = (77, picky) ∷ [];
  reconnect_times = 3;
}

handler_error_stops_example :
    tcp_incomming 3 device ≡ (stopped handler_error, record device { conn_in = 9 ∷ [] })
unfolding new_device_session load
handler_error_stops_example =
    handler_error_stops req picky (9 ∷ []) 2 device (omega arith) (inl (refl, refl)) refl refl

recover_connects_example :
    recover (replicate 5 none ++ (some (6 ∷ []) ∷ none ∷ [])) device ≡ record {
      delays = backoff 3 6;
      connected = true;
      session = record device { reconnect_times = 0; conn_in = 6 ∷ []; conn_out = [] };
    }
recover_connects_example = recover_connects 5 (6 ∷ []) (none ∷ []) device (omega arith)
