-- ===== src/Device/Serving/Recovering.antt =====
-- How long a device takes to connect again.
use rtio.Prelude.{
  ℕ, zero, suc, ◌+◌, ◌*◌, ◌^◌, ◌<◌, ◌≡◌, refl, Option, none, some, List, [], ◌∷◌, ◌++◌, replicate,
  ltb, if◌then◌else◌, u16, arith, true,
}
use rtio.Device.State.{DeviceSession}
use rtio.Device.Serving.{recover, reconnect, get_reconnect_interval}

-- Seconds to wait before each of k attempts, the first after n failures: a power of 2 from 2 up to
-- 128.
abbrev pub backoff : ℕ → ℕ → List ℕ
backoff n zero = []
backoff n (suc k) = 2 * 2 ^ (if ltb n 6 then n else 6) ∷ backoff (n + 1) k

-- A device that has failed to connect some times, and does so k times more, fewer than 65536 times in
-- all, and then once not, serves again on the new connection,
-- and has forgotten the failures. It waited before each attempt, 2 seconds after no failure and twice
-- as long after each one more, up to 128 seconds from the sixth on.
pub recover_connects :
    (k : ℕ) (conn : List ℕ) (later : List (Option (List ℕ))) (d : DeviceSession)
    → d.reconnect_times + k < 65536
    → recover (replicate k none ++ (some conn ∷ later)) d ≡ record {
      delays = backoff d.reconnect_times (suc k);
      connected = true;
      session = record d { reconnect_times = 0; conn_in = conn; conn_out = [] };
    }
unfolding recover reconnect get_reconnect_interval
recover_connects zero conn later d h = refl
recover_connects (suc k) conn later d h =
    let s : DeviceSession = record d { reconnect_times = u16 (d.reconnect_times + 1) } in
    let next : u16 (d.reconnect_times + 1) ≡ d.reconnect_times + 1 = omega arith in
    rw (recover_connects k conn later s (omega arith), next) refl
