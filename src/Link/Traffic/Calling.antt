-- ===== src/Link/Traffic/Calling.antt =====
-- What callers do to the requests in flight.
use rtio.Prelude.{
  ℕ, ◌+◌, ◌<◌, ◌≡◌, ◌≢◌, refl, sym, ap, subst, ◌∙◌, inl, inr, ◌==◌, ==_iff, Bool-cases, none, some,
  List, [], ◌∷◌, ◌++◌, append_assoc, if◌then◌else◌, arith, u32,
}
use rtio.Rest.Co.{CoReq}
use rtio.Rest.Co.RoundTrip.{FitsReq}
use rtio.SyncMap.{SyncMap, load, store, nat_eq}
use rtio.SyncMap.Laws.{load-store}
use rtio.TimeKv.{TimeKv}
use rtio.TimeKv
use rtio.Server.State.{gen_header_id}
use rtio.Server.Requesting.Sending.{request, waiting, send_co_req_lem}
use rtio.Link.Traffic.{System, CanSend, asking, reply_of}
use rtio.Link.Traffic.Invariant.{
  All, map-All, Pending, asked_frame, Replies, RespChans, IsServed, IsAwaited, IsDistinct, IsIn,
  IsCall, IsSound,
}
use rtio.Link.Traffic.Moving.{handled_lem, map-snoc}

All-snoc {ℓ} :
    {A : Type ℓ} (P : A → Type 0) (xs : List A) (x : A) → All P xs → P x → All P (xs ++ (x ∷ []))
All-snoc P [] x h k = (k, tt)
All-snoc P (y ∷ xs) x h k = (h.0, All-snoc P xs x h.1 k)

IsDistinct-snoc :
    (ps : List Pending) (p : Pending)
    → All (λ q. q.chan < p.chan) ps
    → IsDistinct ps
    → IsDistinct (ps ++ (p ∷ []))
IsDistinct-snoc [] p lt d = (tt, tt)
IsDistinct-snoc (q ∷ ps) p lt d = (
  All-snoc (λ r. r.chan ≢ q.chan) ps p d.0 (λ e. omega (arith, lt.0)),
  IsDistinct-snoc ps p lt.1 d.1,
)

IsIn-snoc : (chan : ℕ) (ps : List Pending) (p : Pending) → IsIn chan ps → IsIn chan (ps ++ (p ∷ []))
IsIn-snoc chan [] p h = absurd h
IsIn-snoc chan (q ∷ ps) p (inl e) = inl e
IsIn-snoc chan (q ∷ ps) p (inr h) = inr (IsIn-snoc chan ps p h)

IsIn-last : (ps : List Pending) (p : Pending) → IsIn p.chan (ps ++ (p ∷ []))
IsIn-last [] p = inl refl
IsIn-last (q ∷ ps) p = inr (IsIn-last ps p)

request-FitsReq :
    (t : System) (uri method : ℕ) (payload out : List ℕ)
    → CanSend t uri method payload out
    → FitsReq (request t.server uri method payload)
request-FitsReq t uri method payload out v =
    elim (handled_lem t.device method uri payload out v.reply).1 [
      | inl (m, q) ↦ omega (arith, v)
      | inr (m, q) ↦ omega (arith, v)
    ]

pub asking_lem :
    (now : ℕ) (t : System) (uri method : ℕ) (payload out : List ℕ)
    → CanSend t uri method payload out
    → (asking now uri method payload t.server).1 ≡ waiting now uri method payload t.server
unfolding gen_header_id
asking_lem now t uri method payload out v =
    ap (λ r. r.1)
      (send_co_req_lem now (request t.server uri method payload)
        (record (t.server) { rolling_header_id = u32 (t.server.rolling_header_id + 1) })
        (request-FitsReq t uri method payload out v))

pub get_set :
    (now k j v : ℕ) (m : TimeKv ℕ)
    → TimeKv.get j (TimeKv.set now k v m) ≡ (if k == j then some v else TimeKv.get j m)
unfolding TimeKv.get TimeKv.set
get_set now k j v m =
    ground (arith, load-store k j (record { store_time = now; value = v }) m.stored)

-- A request that takes the next channel, and an id that is free.
module _ (now : ℕ) (ids : TimeKv ℕ) (chans : RespChans) (next : ℕ) (calls : SyncMap ℕ CoReq)
    (req : CoReq) (free : TimeKv.get req.header_id ids ≡ none) where
  old-IsAwaited :
      (q : Pending)
      → IsAwaited ids chans next calls q
      → IsAwaited
          (TimeKv.set now req.header_id next ids)
          (store next [] chans)
          (next + 1)
          (store next req calls)
          q
  old-IsAwaited q a = record {
    known = ground (arith, a.known, get_set now req.header_id q.req.header_id next ids);
    blank = ground (arith, a.blank, a.chan_lt, load-store next q.chan [] chans);
    called = ground (arith, a.called, a.chan_lt, load-store next q.chan req calls);
    chan_lt = omega (arith, a.chan_lt);
  }

  new-IsAwaited :
      (out : List ℕ)
      → IsAwaited
          (TimeKv.set now req.header_id next ids)
          (store next [] chans)
          (next + 1)
          (store next req calls)
          (record { chan = next; req = req; out = out })
  new-IsAwaited out = record {
    known = ground (arith, get_set now req.header_id req.header_id next ids);
    blank = ground (arith, load-store next next [] chans);
    called = ground (arith, load-store next next req calls);
    chan_lt = omega arith;
  }

  old-IsCall :
      (replies : Replies) (ps : List Pending) (p : Pending) (chan : ℕ) (r : CoReq)
      → IsCall replies chans next ps chan r
      → IsCall replies (store next [] chans) (next + 1) (ps ++ (p ∷ [])) chan r
  old-IsCall replies ps p chan r k = record {
    fits = k.fits;
    chan_lt = omega (arith, k.chan_lt);
    state = elim k.state [
      | inl h ↦ inl (IsIn-snoc chan ps p h)
      | inr (out, e, le, q) ↦
          inr (out, e, le, ground (arith, q, k.chan_lt, load-store next chan [] chans))
    ];
  }

  call_lem :
      (replies : Replies) (ps : List Pending) (out : List ℕ) (chan : ℕ) (r : CoReq)
      → FitsReq req
      → load chan (store next req calls) ≡ some r
      → ((q : CoReq) → load chan calls ≡ some q → IsCall replies chans next ps chan q)
      → IsCall replies
          (store next [] chans)
          (next + 1)
          (ps ++ (record { chan = next; req = req; out = out } ∷ []))
          chan
          r
  call_lem replies ps out chan r v e old = elim (Bool-cases (next == chan)) [
    | inl same ↦
        let n : next ≡ chan = (==_iff next chan).0 same in
        let q : req ≡ r = ground (arith, e, same, load-store next chan req calls) in
        record {
          fits = subst FitsReq q v;
          chan_lt = omega arith;
          state = inl (
              subst (λ k. IsIn k (ps ++ (record { chan = next; req = req; out = out } ∷ []))) n
                (IsIn-last ps (record { chan = next; req = req; out = out })));
        }
    | inr other ↦
        old-IsCall replies ps (record { chan = next; req = req; out = out }) chan r
          (old r (ground (arith, e, other, load-store next chan req calls)))
  ]

-- The target of `sends`.
abbrev pub asked : System → ℕ → ℕ → ℕ → List ℕ → System
asked t now uri method payload = record t {
  server = (asking now uri method payload t.server).1;
  calls = store t.server.next_chan (request t.server uri method payload) t.calls;
}

-- The request that a caller makes, with the answer to come.
abbrev pub sent : System → ℕ → ℕ → List ℕ → List ℕ → Pending
sent t uri method payload out = record {
  chan = t.server.next_chan;
  req = request t.server uri method payload;
  out = out;
}

pub sends-IsSound :
    (t : System) (now uri method : ℕ) (payload out : List ℕ)
    (ps back replied there waiting_there : List Pending)
    → CanSend t uri method payload out
    → IsSound t ps back replied there waiting_there
    → IsSound
        (asked t now uri method payload)
        (ps ++ (sent t uri method payload out ∷ []))
        back
        replied
        there
        (waiting_there ++ (sent t uri method payload out ∷ []))
sends-IsSound t now uri method payload out ps back replied there waiting_there v s =
    let p = sent t uri method payload out in
    let fits = request-FitsReq t uri method payload out v in
    let ids = t.server.send_id_store in
    let chans = t.server.resp_chans in
    let next = t.server.next_chan in
    subst
      (λ u.
        IsSound (record t { server = u; calls = store next p.req t.calls }) (ps ++ (p ∷ [])) back
          replied there (waiting_there ++ (p ∷ [])))
      (sym (asking_lem now t uri method payload out v))
      (record {
        split =
            ap (λ l. l ++ (p ∷ [])) s.split
            ∙ (append_assoc back (replied ++ (there ++ waiting_there)) (p ∷ [])
                ∙ ap (λ l. back ++ l)
                    (append_assoc replied (there ++ waiting_there) (p ∷ [])
                      ∙ ap (λ l. replied ++ l) (append_assoc there waiting_there (p ∷ []))));
        asked_eq =
            ap (λ l. l ++ (asked_frame p ∷ [])) s.asked_eq
            ∙ sym (map-snoc asked_frame waiting_there p);
        there_eq = s.there_eq;
        replied_eq = s.replied_eq;
        back_eq = s.back_eq;
        served =
            All-snoc (IsServed (reply_of t.device)) ps p s.served
              (record { fits = fits; reply = v.reply; out_le = v.out_le });
        awaited =
            All-snoc _ ps p
              (map-All _ _ ps (old-IsAwaited now ids chans next t.calls p.req v.is_free) s.awaited)
              (new-IsAwaited now ids chans next t.calls p.req v.is_free out);
        distinct =
            IsDistinct-snoc ps p (map-All _ (λ q. q.chan < next) ps (λ q a. a.chan_lt) s.awaited)
              s.distinct;
        call = λ chan req e.
            call_lem now ids chans next t.calls p.req v.is_free (reply_of t.device) ps out chan req
              fits e (s.call chan);
      })
