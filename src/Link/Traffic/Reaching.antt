-- ===== src/Link/Traffic/Reaching.antt =====
-- The states that callers and loops can come to, from a session with nothing under way.
use rtio.Prelude.{ℕ, ◌≡◌, ◌≢◌, refl, ap, List, [], ◌∷◌, ◌++◌, arith}
use rtio.Rest.Co.{CoReq}
use rtio.SyncMap.{load, nat_eq}
use rtio.SyncMap.Laws.{load-nil}
use rtio.Server.Incoming.{Config}
use rtio.Link.Traffic.{
  System, Move, server_writes, device_reads, device_writes, server_reads, Step, moves, sends,
  returns,
}
use rtio.Link.Traffic.Invariant.{Pending, IsSound}
use rtio.Link.Traffic.Moving.{
  written, replied_to, device_read, server_read, server_writes-IsSound, device_writes-IsSound,
  device_reads-IsSound,
}
use rtio.Link.Traffic.Receiving.{server_reads-IsSound}
use rtio.Link.Traffic.Calling.{sends-IsSound}
use rtio.Link.Traffic.Returning.{returns-IsSound}

-- Nothing is under way, and no call has been made.
pub record IsIdle (t : System) : Type 0 where
  pub no_asked : t.server.outgoing_chan ≡ []
  pub no_there : t.device.conn_in ≡ []
  pub no_replied : t.device.outgoing_chan ≡ []
  pub no_back : t.server.conn_in ≡ []
  pub no_calls : t.calls ≡ []

pub data Reach (c : Config) : System → Type 0 where
  start : {t : System} → IsIdle t → Reach c t
  later : {t u : System} → Reach c t → Step c t u → Reach c u

-- Where the requests in flight are.
pub record Places (t : System) : Type 0 where
  pub ps : List Pending
  pub back : List Pending
  pub replied : List Pending
  pub there : List Pending
  pub asked : List Pending
  pub sound : IsSound t ps back replied there asked

at :
    {t : System} (ps back replied there asked : List Pending)
    → IsSound t ps back replied there asked
    → Places t
at ps back replied there asked s = record {
  ps = ps;
  back = back;
  replied = replied;
  there = there;
  asked = asked;
  sound = s;
}

idle-IsSound : (t : System) → IsIdle t → IsSound t [] [] [] [] []
idle-IsSound t i = record {
  split = refl;
  asked_eq = i.no_asked;
  there_eq = i.no_there;
  replied_eq = i.no_replied;
  back_eq = i.no_back;
  served = tt;
  awaited = tt;
  distinct = tt;
  call = λ chan req e.
      absurd (ground (arith, e, ap (load chan) i.no_calls, load-nil {V = CoReq} chan));
}

server_writes-Places :
    (t : System) (ps back replied there asked : List Pending) (f : List ℕ) (fs : List (List ℕ))
    → t.server.outgoing_chan ≡ f ∷ fs
    → IsSound t ps back replied there asked
    → Places (written t f fs)
server_writes-Places t ps back replied there [] f fs e s = absurd (ground (arith, e, s.asked_eq))
server_writes-Places t ps back replied there (p ∷ asked) f fs e s =
    at ps back replied (there ++ (p ∷ [])) asked
      (server_writes-IsSound t ps back replied there asked p f fs s e)

device_reads-Places :
    (t : System) (ps back replied there asked : List Pending)
    → t.device.conn_in ≢ []
    → IsSound t ps back replied there asked
    → Places (device_read t)
device_reads-Places t ps back replied [] asked n s = absurd (n s.there_eq)
device_reads-Places t ps back replied (p ∷ there) asked n s =
    at ps back (replied ++ (p ∷ [])) there asked
      (device_reads-IsSound t ps back replied there asked p s)

device_writes-Places :
    (t : System) (ps back replied there asked : List Pending) (f : List ℕ) (fs : List (List ℕ))
    → t.device.outgoing_chan ≡ f ∷ fs
    → IsSound t ps back replied there asked
    → Places (replied_to t f fs)
device_writes-Places t ps back [] there asked f fs e s = absurd (ground (arith, e, s.replied_eq))
device_writes-Places t ps back (p ∷ replied) there asked f fs e s =
    at ps (back ++ (p ∷ [])) replied there asked
      (device_writes-IsSound t ps back replied there asked p f fs s e)

server_reads-Places :
    (c : Config) (t : System) (ps back replied there asked : List Pending)
    → t.server.conn_in ≢ []
    → IsSound t ps back replied there asked
    → Places (server_read c t)
server_reads-Places c t ps [] replied there asked n s = absurd (n s.back_eq)
server_reads-Places c t ps (p ∷ back) replied there asked n s =
    at _ back replied there asked (server_reads-IsSound c t ps back replied there asked p s)

Move-Places : {c : Config} {t u : System} → Move c t u → Places t → Places u
Move-Places (server_writes t f fs e) s =
    server_writes-Places t s.ps s.back s.replied s.there s.asked f fs e s.sound
Move-Places (device_reads t n) s =
    device_reads-Places t s.ps s.back s.replied s.there s.asked n s.sound
Move-Places (device_writes t f fs e) s =
    device_writes-Places t s.ps s.back s.replied s.there s.asked f fs e s.sound
Move-Places {c} (server_reads t n) s =
    server_reads-Places c t s.ps s.back s.replied s.there s.asked n s.sound

Step-Places : {c : Config} {t u : System} → Step c t u → Places t → Places u
Step-Places (moves m) s = Move-Places m s
Step-Places (sends t now uri method payload out v) s =
    at _ s.back s.replied s.there _
      (sends-IsSound t now uri method payload out s.ps s.back s.replied s.there s.asked v s.sound)
Step-Places (returns t chan req b bs called k full) s =
    at s.ps s.back s.replied s.there s.asked
      (returns-IsSound t chan req b bs s.ps s.back s.replied s.there s.asked k full s.sound)

pub Reach-Places : {c : Config} {t : System} → Reach c t → Places t
Reach-Places (start i) = at [] [] [] [] [] (idle-IsSound _ i)
Reach-Places (later r st) = Step-Places st (Reach-Places r)
