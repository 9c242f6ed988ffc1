-- ===== src/Server/Serving/Examples.antt =====
-- A session that ends.
use rtio.Prelude.{ℕ, ◌≡◌, refl, true, false, List, [], ◌∷◌, length, arith, ◌≤◌}
use rtio.Utils.{Written}
use rtio.Utils.Writing.{IsWriter}
use rtio.Server.State.{Session, new_session}
use rtio.Server.Sessions.{ServerTcp, del_session}
use rtio.Server.Serving.{heartbeat_timer, heartbeat_timeout, returned, serve, close}
use rtio.Server.Serving.Closing.{IsClosed, serve_closes}

-- A verified session with an observation.
abbrev session : Session
session = record (new_session []) {
  device_id = b'a' ∷ [];
  verify_pass = true;
  observa_store = (7, record { id = 7; frame_id = 0; notify_chan = []; session_done = false }) ∷ [];
}

abbrev server : ServerTcp
server = record { sessions = (b'a' ∷ [], 3) ∷ []; session_num = 1 }

abbrev closed : Session
closed = record session {
  observa_store = (7, record { id = 7; frame_id = 0; notify_chan = []; session_done = true }) ∷ [];
}

session_closes :
    serve (heartbeat_timer ∷ []) session server
    ≡ returned heartbeat_timeout closed (del_session (b'a' ∷ []) server)
unfolding serve close
session_closes = refl

serve_closes_example : IsClosed closed (del_session (b'a' ∷ []) server)
serve_closes_example =
    serve_closes (heartbeat_timer ∷ []) session closed server (del_session (b'a' ∷ []) server)
      heartbeat_timeout session_closes

-- A connection that takes one byte at a time, or nothing of nothing.
abbrev one_byte : ℕ → ℕ → List ℕ → Written
one_byte k n [] = record { taken = 0; failed = false }
one_byte k n (b ∷ bs) = record { taken = 1; failed = false }

one_byte_within : (k n : ℕ) (b : List ℕ) → (one_byte k n b).taken ≤ length b
one_byte_within k n [] = omega arith
one_byte_within k n (b ∷ bs) = omega arith

one_byte_progress :
    (k n : ℕ) (b : List ℕ)
    → 1 ≤ length b
    → (one_byte k n b).failed ≡ false
    → 1 ≤ (one_byte k n b).taken
one_byte_progress k n [] le f = le
one_byte_progress k n (b ∷ bs) le f = omega arith

one_byte-IsWriter : (k : ℕ) → IsWriter (one_byte k)
one_byte-IsWriter k = record { within = one_byte_within k; progress = one_byte_progress k }
