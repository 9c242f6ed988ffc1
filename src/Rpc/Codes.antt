-- ===== src/Rpc/Codes.antt =====
-- The codes of deviceaccess.proto, and transToRPCCode.
use rtio.Prelude.{ℕ, ◌==◌, if◌then◌else◌}
use rtio.Rest.Status

abbrev pub code_internal_server_error : ℕ
code_internal_server_error = 0

abbrev pub code_ok : ℕ
code_ok = 1

abbrev pub code_deviceid_offline : ℕ
code_deviceid_offline = 2

abbrev pub code_deviceid_timeout : ℕ
code_deviceid_timeout = 3

abbrev pub code_continue : ℕ
code_continue = 4

abbrev pub code_terminate : ℕ
code_terminate = 5

abbrev pub code_not_fount : ℕ
code_not_fount = 6

abbrev pub code_bad_request : ℕ
code_bad_request = 7

abbrev pub code_method_not_allowed : ℕ
code_method_not_allowed = 8

abbrev pub code_too_many_requests : ℕ
code_too_many_requests = 9

abbrev pub code_too_many_observations : ℕ
code_too_many_observations = 10

abbrev pub code_request_timeout : ℕ
code_request_timeout = 11

abbrev pub trans_to_rpc_code : ℕ → ℕ
trans_to_rpc_code code =
    if code == Status.unknown
    then code_internal_server_error
    else if code == Status.success
    then code_ok
    else if code == Status.continue
    then code_continue
    else if code == Status.terminate
    then code_terminate
    else if code == Status.not_fount
    then code_not_fount
    else if code == Status.bad_request
    then code_bad_request
    else if code == Status.method_not_allowed
    then code_method_not_allowed
    else if code == Status.too_many_requests
    then code_too_many_requests
    else if code == Status.too_many_observations
    then code_too_many_observations
    else code_internal_server_error
