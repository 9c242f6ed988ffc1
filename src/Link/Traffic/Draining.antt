-- ===== src/Link/Traffic/Draining.antt =====
-- The loops of both ends, with no more said by callers: they empty what is under way.
use rtio.Prelude.{
  ℕ, ◌≡◌, refl, sym, ap, subst, ◌∙◌, inl, inr, some, List, [], ◌∷◌, ◌++◌, map, arith,
}
use rtio.Rest.Co.{CoReq}
use rtio.SyncMap.{SyncMap, load, nat_eq}
use rtio.Server.Serving.Sending.{bytes_of}
use rtio.Server.Incoming.{Config}
use rtio.Link.Traffic.{
  System, Move, server_writes, device_reads, device_writes, server_reads, reply_of,
}
use rtio.Link.Traffic.Invariant.{Pending, asked_frame, reply_frame, reply_bytes, Replies, IsSound}
use rtio.Link.Traffic.Moving.{
  written, replied_to, device_read, server_read, device_round_lem, there-IsServed,
  server_writes-IsSound, device_writes-IsSound, device_reads-IsSound,
}
use rtio.Link.Traffic.Receiving.{server_reads-IsSound}
use rtio.Link.Traffic.Reaching.{Reach, Reach-Places}

-- A sequence of moves of the loops.
pub data Moves (c : Config) : System → System → Type 0 where
  done : {t : System} → Moves c t t
  then : {t u v : System} → Move c t u → Moves c u v → Moves c t v

-- Moves to a state with nothing under way, where the calls made and what the device answers are these.
record Ends (c : Config) (calls : SyncMap ℕ CoReq) (replies : Replies) (t : System) : Type 0 where
  last : System
  ran : Moves c t last
  calls_eq : last.calls ≡ calls
  replies_eq : reply_of last.device ≡ replies
  sound : IsSound last [] [] [] [] []

further :
    {c : Config} {calls : SyncMap ℕ CoReq} {replies : Replies} {t u : System}
    → Move c t u
    → Ends c calls replies u
    → Ends c calls replies t
further m e = record {
  last = e.last;
  ran = then m e.ran;
  calls_eq = e.calls_eq;
  replies_eq = e.replies_eq;
  sound = e.sound;
}

-- A round of the device changes none of its handlers.
device_read_replies :
    (t : System) (ps back replied there asked : List Pending) (p : Pending)
    → IsSound t ps back replied (p ∷ there) asked
    → reply_of (device_read t).device ≡ reply_of t.device
device_read_replies t ps back replied there asked p s =
    ap (λ r. reply_of r.1)
      (device_round_lem p (bytes_of (map asked_frame there)) t.device
        (there-IsServed t ps back replied there asked p s) s.there_eq)

module _ (c : Config) (calls : SyncMap ℕ CoReq) (replies : Replies) where
  Ends-back :
      (t : System) (ps back : List Pending)
      → IsSound t ps back [] [] []
      → t.calls ≡ calls
      → reply_of t.device ≡ replies
      → Ends c calls replies t
  Ends-back t ps [] s e d = record {
    last = t;
    ran = done;
    calls_eq = e;
    replies_eq = d;
    sound = subst (λ qs. IsSound t qs [] [] [] []) s.split s;
  }
  Ends-back t ps (p ∷ back) s e d =
      further (server_reads t (λ q. absurd (ground (arith, s.back_eq, q))))
        (Ends-back (server_read c t) _ back (server_reads-IsSound c t ps back [] [] [] p s) e d)

  Ends-replied :
      (t : System) (ps back replied : List Pending)
      → IsSound t ps back replied [] []
      → t.calls ≡ calls
      → reply_of t.device ≡ replies
      → Ends c calls replies t
  Ends-replied t ps back [] s e d = Ends-back t ps back s e d
  Ends-replied t ps back (p ∷ replied) s e d = further (device_writes t _ _ s.replied_eq) (
      Ends-replied (replied_to t (reply_frame p) (map reply_frame replied)) ps (back ++ (p ∷ []))
        replied (device_writes-IsSound t ps back replied [] [] p _ _ s s.replied_eq) e d)

  Ends-there :
      (t : System) (ps back replied there : List Pending)
      → IsSound t ps back replied there []
      → t.calls ≡ calls
      → reply_of t.device ≡ replies
      → Ends c calls replies t
  Ends-there t ps back replied [] s e d = Ends-replied t ps back replied s e d
  Ends-there t ps back replied (p ∷ there) s e d =
      further (device_reads t (λ q. absurd (ground (arith, s.there_eq, q)))) (
        Ends-there (device_read t) ps back (replied ++ (p ∷ [])) there
          (device_reads-IsSound t ps back replied there [] p s) e
          (device_read_replies t ps back replied there [] p s ∙ d))

  Ends-asked :
      (t : System) (ps back replied there asked : List Pending)
      → IsSound t ps back replied there asked
      → t.calls ≡ calls
      → reply_of t.device ≡ replies
      → Ends c calls replies t
  Ends-asked t ps back replied there [] s e d = Ends-there t ps back replied there s e d
  Ends-asked t ps back replied there (p ∷ asked) s e d = further (server_writes t _ _ s.asked_eq) (
      Ends-asked (written t (asked_frame p) (map asked_frame asked)) ps back replied
        (there ++ (p ∷ [])) asked
        (server_writes-IsSound t ps back replied there asked p _ _ s s.asked_eq) e d)

-- From every state that callers and loops come to, where the requests and answers fit a frame, ids
-- are free and no caller times out, the loops alone can come to one where every request that any
-- caller has made is answered: its channel holds one body, the response with the status OK and the
-- output of the device's handler for it.
pub each_answered :
    (c : Config) (t : System)
    → Reach c t
    → (u : System) × Moves c t u
      × ((chan : ℕ) (req : CoReq)
          → load chan t.calls ≡ some req
          → (out : List ℕ) × (reply_of t.device req ≡ some out)
            × (load chan u.server.resp_chans ≡ some (reply_bytes req out ∷ [])))
each_answered c t r =
    let places = Reach-Places r in
    let e =
      Ends-asked c t.calls (reply_of t.device) t places.ps places.back places.replied places.there
        places.asked places.sound refl refl in
    (
      e.last,
      e.ran,
      λ chan req called. elim ((e.sound).call chan req (ap (load chan) e.calls_eq ∙ called)).state [
        | inl h ↦ absurd h
        | inr (out, q, le, full) ↦ (out, ap (λ f. f req) (sym e.replies_eq) ∙ q, full)
      ],
    )
