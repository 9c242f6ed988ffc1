-- ===== src/Proto/Types.antt =====
-- The constants, errors and message types of pkg/deviceproto (code.go, codec.go).
-- MsgType, RemoteCode and the other enumerations are uint8 in the source and take values that have
-- no name when they come off the wire, so they are numbers here too.
use rtio.Prelude.{ℕ, List, [], ◌∷◌, ltb, get_or, fail_if, Outcome, ok, ◌>>◌}

pub data Error : Type 0 where
  err_unkown err_exceed_length err_not_enought err_length_error : Error
  err_encode err_decode err_net_read err_net_write err_verify_data : Error
  err_cap_level err_header_nil : Error

-- RemoteCode
abbrev pub code_unkown_err : ℕ
code_unkown_err = 0

abbrev pub code_success : ℕ
code_success = 1

abbrev pub code_type_err : ℕ
code_type_err = 2

abbrev pub code_verify_fail : ℕ
code_verify_fail = 3

abbrev pub code_para_invalid : ℕ
code_para_invalid = 4

abbrev pub code_length_err : ℕ
code_length_err = 5

abbrev pub code_res_not_found : ℕ
code_res_not_found = 6

-- MsgType
abbrev pub device_verify_req : ℕ
device_verify_req = 1

abbrev pub device_verify_resp : ℕ
device_verify_resp = 2

abbrev pub device_ping_req : ℕ
device_ping_req = 3

abbrev pub device_ping_resp : ℕ
device_ping_resp = 4

abbrev pub device_send_req : ℕ
device_send_req = 5

abbrev pub device_send_resp : ℕ
device_send_resp = 6

abbrev pub server_send_req : ℕ
server_send_req = 7

abbrev pub server_send_resp : ℕ
server_send_resp = 8

-- Lengths
abbrev pub header_len : ℕ
header_len = 5

abbrev pub protocol_version : ℕ
protocol_version = 0

abbrev pub device_id_len : ℕ
device_id_len = 36

abbrev pub device_secret_len_min : ℕ
device_secret_len_min = 24

abbrev pub device_secret_len_max : ℕ
device_secret_len_max = 64

abbrev pub cap_level_to_size : List ℕ
cap_level_to_size = 512 ∷ 1024 ∷ 2048 ∷ 4096 ∷ []

unfoldable pub get_cap_size : ℕ → Outcome Error ℕ
get_cap_size level = do fail_if (ltb 3 level) err_cap_level; ok (get_or cap_level_to_size level 0)
