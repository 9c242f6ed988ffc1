-- ===== src/Rpc/Observe/Frames.antt =====
-- The frames of an observation on the user's stream.
use rtio.Prelude.{
  ℕ, zero, suc, get_or, refl, ◌+◌, ◌%◌, ◌≡◌, sym, ap, ◌∙◌, ◌==◌, Bool, true, ◌&&◌, some, List, [],
  ◌∷◌, ◌++◌, map, length, if◌then◌else◌, u32, arith,
}
use rtio.Rest.Observe.{ObGetNotifyReq}
use rtio.Rpc.Codes.{trans_to_rpc_code, code_continue}
use rtio.Rpc.Calls.{Req}
use rtio.Rpc.Observe.{ObGetResp, Notice, notified, ob_coded, ob_get_notify_serve}

-- Continue of the device's status codes.
abbrev pub goes_on : ObGetNotifyReq → Bool
goes_on n = n.code == 3

-- The number in deviceaccess.proto for a status of a device, by name: the numbers of Unknown,
-- InternalServerError, OK, Continue, Terminate, NotFount, BadRequest, MethodNotAllowed, TooManyRequests
-- and TooManyObservations in their order.
abbrev pub rpc_numbers : List ℕ
rpc_numbers = 0 ∷ 0 ∷ 1 ∷ 4 ∷ 5 ∷ 6 ∷ 7 ∷ 8 ∷ 9 ∷ 10 ∷ []

abbrev pub rpc_number : ℕ → ℕ
rpc_number status = get_or rpc_numbers status 0

-- The notifications up to the first that does not say Continue, that one included.
abbrev pub up_to_last : List ObGetNotifyReq → List ObGetNotifyReq
up_to_last [] = []
up_to_last (n ∷ ns) = n ∷ (if goes_on n then up_to_last ns else [])

abbrev pub all_go_on : List ObGetNotifyReq → Bool
all_go_on [] = true
all_go_on (n ∷ ns) = goes_on n && all_go_on ns

-- One response for each, numbered from `fid` on.
abbrev pub numbered : Req → ℕ → List ObGetNotifyReq → List ObGetResp
numbered req fid [] = []
numbered req fid (n ∷ ns) =
    ob_coded req fid (rpc_number n.code) n.payload ∷ numbered req (u32 (fid + 1)) ns

abbrev pub arrived : ObGetNotifyReq → Notice
arrived n = notified (some n)

rpc_number_lem : (code : ℕ) → trans_to_rpc_code code ≡ rpc_number code
rpc_number_lem zero = refl
rpc_number_lem (suc zero) = refl
rpc_number_lem (suc (suc zero)) = refl
rpc_number_lem (suc (suc (suc zero))) = refl
rpc_number_lem (suc (suc (suc (suc zero)))) = refl
rpc_number_lem (suc (suc (suc (suc (suc zero))))) = refl
rpc_number_lem (suc (suc (suc (suc (suc (suc zero)))))) = refl
rpc_number_lem (suc (suc (suc (suc (suc (suc (suc zero))))))) = refl
rpc_number_lem (suc (suc (suc (suc (suc (suc (suc (suc zero)))))))) = refl
rpc_number_lem (suc (suc (suc (suc (suc (suc (suc (suc (suc zero))))))))) = refl
rpc_number_lem (suc (suc (suc (suc (suc (suc (suc (suc (suc (suc n)))))))))) = ground arith

continue_lem : (code : ℕ) → (rpc_number code == code_continue) ≡ (code == 3)
continue_lem zero = refl
continue_lem (suc zero) = refl
continue_lem (suc (suc zero)) = refl
continue_lem (suc (suc (suc zero))) = refl
continue_lem (suc (suc (suc (suc zero)))) = refl
continue_lem (suc (suc (suc (suc (suc zero))))) = refl
continue_lem (suc (suc (suc (suc (suc (suc zero)))))) = refl
continue_lem (suc (suc (suc (suc (suc (suc (suc zero))))))) = refl
continue_lem (suc (suc (suc (suc (suc (suc (suc (suc zero)))))))) = refl
continue_lem (suc (suc (suc (suc (suc (suc (suc (suc (suc zero))))))))) = refl
continue_lem (suc (suc (suc (suc (suc (suc (suc (suc (suc (suc n)))))))))) = ground arith

-- For notifications that arrive before anything else, the user's stream gets one response for each, in
-- their order, with their data and the numbers of deviceaccess.proto for their codes, and with frame ids counted up in uint32 from the
-- observation's, up to the first that does not say Continue. What comes after them is served, from
-- the next frame id on, if all of them say Continue, and else the stream has ended.
pub ob_get_notify_serve_numbers :
    (req : Req) (fid : ℕ) (ns : List ObGetNotifyReq) (later : List Notice)
    → fid % 4294967296 ≡ fid
    → ob_get_notify_serve req fid (map arrived ns ++ later)
      ≡ numbered req fid (up_to_last ns)
        ++ (if all_go_on ns then ob_get_notify_serve req (u32 (fid + length ns)) later else [])
unfolding ob_get_notify_serve
ob_get_notify_serve_numbers req fid [] later h =
    ap (λ n. ob_get_notify_serve req n later) (sym (ap u32 (omega arith) ∙ h))
ob_get_notify_serve_numbers req fid (n ∷ ns) later h =
    rw (rpc_number_lem n.code, continue_lem n.code)
      (ground (arith, ob_get_notify_serve_numbers req (u32 (fid + 1)) ns later (omega arith)))
