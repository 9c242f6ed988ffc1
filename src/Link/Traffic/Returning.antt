-- ===== src/Link/Traffic/Returning.antt =====
-- What a caller that returns does to the requests in flight: nothing.
use rtio.Prelude.{ℕ, ◌≡◌, ◌≢◌, sym, subst, ◌==◌, none, some, List, ◌∷◌, if◌then◌else◌, arith}
use rtio.Rest.Co.{CoReq}
use rtio.SyncMap.{SyncMap, load, nat_eq}
use rtio.SyncMap.Laws.{load-delete}
use rtio.TimeKv.{TimeKv}
use rtio.TimeKv
use rtio.Server.Observing.{body}
use rtio.Server.Requesting.{receive_co_resp}
use rtio.Server.Requesting.Routing.{receive_co_resp_session}
use rtio.Link.Traffic.{System}
use rtio.Link.Traffic.Invariant.{map-All, Pending, RespChans, IsAwaited, IsSound}

pub get_del :
    (k j : ℕ) (m : TimeKv ℕ)
    → TimeKv.get j (TimeKv.del k m) ≡ (if k == j then none else TimeKv.get j m)
unfolding TimeKv.get TimeKv.del
get_del k j m = ground (arith, load-delete k j m.stored)

-- The target of `returns`.
abbrev pub returned : System → CoReq → List ℕ → System
returned t req b = record t { server = (receive_co_resp req.header_id (body b) t.server).1 }

kept-IsAwaited :
    (ids : TimeKv ℕ) (chans : RespChans) (next : ℕ) (calls : SyncMap ℕ CoReq) (id chan : ℕ)
    (b : List ℕ) (bs : List (List ℕ))
    → TimeKv.get id ids ≡ some chan
    → load chan chans ≡ some (b ∷ bs)
    → (q : Pending) → IsAwaited ids chans next calls q
    → IsAwaited (TimeKv.del id ids) chans next calls q
kept-IsAwaited ids chans next calls id chan b bs k full q a =
    let differs : id ≢ q.req.header_id =
      λ e. absurd (ground (arith, e, k, a.known, full, a.blank)) in
    record {
      known = ground (arith, a.known, differs, get_del id q.req.header_id ids);
      blank = a.blank;
      called = a.called;
      chan_lt = a.chan_lt;
    }

pub returns-IsSound :
    (t : System) (chan : ℕ) (req : CoReq) (b : List ℕ) (bs : List (List ℕ))
    (ps back replied there waiting_there : List Pending)
    → TimeKv.get req.header_id t.server.send_id_store ≡ some chan
    → load chan t.server.resp_chans ≡ some (b ∷ bs)
    → IsSound t ps back replied there waiting_there
    → IsSound (returned t req b) ps back replied there waiting_there
returns-IsSound t chan req b bs ps back replied there waiting_there k full s =
    subst (λ u. IsSound (record t { server = u }) ps back replied there waiting_there)
      (sym (receive_co_resp_session req.header_id (body b) t.server))
      (record {
        split = s.split;
        asked_eq = s.asked_eq;
        there_eq = s.there_eq;
        replied_eq = s.replied_eq;
        back_eq = s.back_eq;
        served = s.served;
        awaited =
            map-All _ _ ps
              (kept-IsAwaited t.server.send_id_store t.server.resp_chans t.server.next_chan t.calls
                req.header_id chan b bs k full)
              s.awaited;
        distinct = s.distinct;
        call = s.call;
      })
