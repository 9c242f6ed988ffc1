-- ===== src/Device/Incoming/Rounds.antt =====
-- A round of the device's incoming loop.
use rtio.Prelude.{ℕ, ◌≡◌, refl, List, [], ◌++◌}
use rtio.Proto.Header.{Header}
use rtio.Proto.Header.Layout.{IsEncodable, header_bytes}
use rtio.Proto.Header.RoundTrip.{decode_header-bytes}
use rtio.Device.State.{DeviceSession}
use rtio.Device.State.Reading.{read_full_lem}
use rtio.Device.Incoming.{incomming_step, dispatch}

-- When a whole frame header stands in the connection, a round of the device's loop reads it and hands
-- the message to the branch of its type, with the rest of the bytes left to read.
pub device_incomming_step_lem :
    (h : Header) (rest : List ℕ) (s : DeviceSession)
    → IsEncodable h
    → s.conn_in ≡ header_bytes h ++ rest
    → incomming_step s ≡ dispatch (record h { version = 0 }) (record s { conn_in = rest })
unfolding incomming_step
device_incomming_step_lem h rest s v e =
    rw (read_full_lem 5 s (header_bytes h) rest e refl, decode_header-bytes h [] v)
