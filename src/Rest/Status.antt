-- ===== src/Rest/Status.antt =====
-- The StatusCode values of pkg/deviceproto/codec_restlike.go.
use rtio.Prelude.{ℕ}

abbrev pub unknown : ℕ
unknown = 0

abbrev pub internal_server_error : ℕ
internal_server_error = 1

-- StatusCode_OK
abbrev pub success : ℕ
success = 2

abbrev pub continue : ℕ
continue = 3

abbrev pub terminate : ℕ
terminate = 4

abbrev pub not_fount : ℕ
not_fount = 5

abbrev pub bad_request : ℕ
bad_request = 6

abbrev pub method_not_allowed : ℕ
method_not_allowed = 7

abbrev pub too_many_requests : ℕ
too_many_requests = 8

abbrev pub too_many_observations : ℕ
too_many_observations = 9
