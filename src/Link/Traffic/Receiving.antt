-- ===== src/Link/Traffic/Receiving.antt =====
-- What a round of the server does to the requests in flight: the oldest is answered.
use rtio.Prelude.{
  ℕ, ◌≡◌, ◌≢◌, refl, sym, ap, subst, ◌∙◌, inl, inr, ==_refl, ne→==_false, some, List, [], ◌∷◌, ◌++◌,
  map, Outcome, ok, arith,
}
use rtio.Rest.Co.{CoReq}
use rtio.SyncMap.{SyncMap, load, store, nat_eq}
use rtio.SyncMap.Laws.{load-store}
use rtio.TimeKv.{TimeKv}
use rtio.Server.State.{Fault, Session}
use rtio.Server.Requesting.{push_chan}
use rtio.Server.Serving.Sending.{bytes_of}
use rtio.Server.Incoming.{Config, Effect}
use rtio.Link.Traffic.{System, reply_of}
use rtio.Link.Traffic.Invariant.{
  All, Pending, reply_frame, reply_bytes, Replies, RespChans, IsServed, IsAwaited, IsDistinct,
  IsAnswered, IsCall, IsSound,
}
use rtio.Link.Traffic.Moving.{server_read, server_round_lem}

both_All {ℓ} :
    {A : Type ℓ} (P Q R : A → Type 0) (xs : List A)
    → ((x : A) → P x → Q x → R x)
    → All P xs
    → All Q xs
    → All R xs
both_All P Q R [] f h k = tt
both_All P Q R (x ∷ xs) f h k = (f x h.0 k.0, both_All P Q R xs f h.1 k.1)

-- The channels once the body of an answer to `p` is pushed on one that has nothing.
abbrev answered_chans : Pending → RespChans → RespChans
answered_chans p chans = store p.chan (reply_bytes p.req p.out ∷ []) chans

push_lem :
    (p : Pending) (s : Session)
    → load p.chan s.resp_chans ≡ some []
    → push_chan p.chan (reply_bytes p.req p.out) s
      ≡ record s { resp_chans = answered_chans p s.resp_chans }
unfolding push_chan
push_lem p s e = rw e refl

module _ (chans : RespChans) (p : Pending) (blank : load p.chan chans ≡ some []) where
  own_content : load p.chan (answered_chans p chans) ≡ some (reply_bytes p.req p.out ∷ [])
  own_content =
      rw (load-store p.chan p.chan (reply_bytes p.req p.out ∷ []) chans, ==_refl p.chan) refl

  other_content : (chan : ℕ) → chan ≢ p.chan → load chan (answered_chans p chans) ≡ load chan chans
  other_content chan n =
      rw
        (
          load-store p.chan chan (reply_bytes p.req p.out ∷ []) chans,
          ne→==_false p.chan chan (λ e. n (sym e)),
        )
        refl

  still-IsAwaited :
      (ids : TimeKv ℕ) (next : ℕ) (calls : SyncMap ℕ CoReq) (q : Pending)
      → q.chan ≢ p.chan
      → IsAwaited ids chans next calls q
      → IsAwaited ids (answered_chans p chans) next calls q
  still-IsAwaited ids next calls q n a = record {
    known = a.known;
    blank = other_content q.chan n ∙ a.blank;
    called = a.called;
    chan_lt = a.chan_lt;
  }

  still-IsAnswered :
      (replies : Replies) (chan : ℕ) (req : CoReq)
      → IsAnswered replies chans chan req
      → IsAnswered replies (answered_chans p chans) chan req
  still-IsAnswered replies chan req (out, r, le, e) =
      (out, r, le, other_content chan (λ q. absurd (ground (arith, q, e, blank))) ∙ e)

  still-IsCall :
      (replies : Replies) (next : ℕ) (calls : SyncMap ℕ CoReq) (ps : List Pending) (chan : ℕ)
      (req : CoReq)
      → IsServed replies p
      → load p.chan calls ≡ some p.req
      → load chan calls ≡ some req
      → IsCall replies chans next (p ∷ ps) chan req
      → IsCall replies (answered_chans p chans) next ps chan req
  still-IsCall replies next calls ps chan req v mine e k = record {
    fits = k.fits;
    chan_lt = k.chan_lt;
    state = elim k.state [
      | inl (inl same) ↦
          let r : p.req ≡ req = ground (arith, mine, e, same) in
          inr (
            p.out,
            ap replies (sym r) ∙ v.reply,
            v.out_le,
            subst (λ n. load n (answered_chans p chans) ≡ some (reply_bytes req p.out ∷ [])) same
                (own_content ∙ ap (λ q. some (reply_bytes q p.out ∷ [])) r),
          )
      | inl (inr h) ↦ inl h
      | inr a ↦ inr (still-IsAnswered replies chan req a)
    ];
  }

-- The pending list has the request that is answered at its head.
pub server_reads-IsSound :
    (c : Config) (t : System) (ps back replied there asked : List Pending) (p : Pending)
    → IsSound t ps (p ∷ back) replied there asked
    → IsSound (server_read c t) (back ++ (replied ++ (there ++ asked))) back replied there asked
server_reads-IsSound c t ps back replied there asked p s =
    let qs = back ++ (replied ++ (there ++ asked)) in
    let served = subst (All (IsServed (reply_of t.device))) s.split s.served in
    let awaited =
      subst (All (IsAwaited t.server.send_id_store t.server.resp_chans t.server.next_chan t.calls))
        s.split s.awaited in
    let distinct = subst IsDistinct s.split s.distinct in
    let v : IsServed (reply_of t.device) p = served.0 in
    let a : IsAwaited t.server.send_id_store t.server.resp_chans t.server.next_chan t.calls p =
      awaited.0 in
    let round =
      server_round_lem c p (bytes_of (map reply_frame back)) t.server v.fits v.out_le a.known
        s.back_eq in
    let after =
      round.1
      ∙ ap (λ u. (ok round.0, u))
          (push_lem p (record (t.server) { conn_in = bytes_of (map reply_frame back) }) a.blank) in
    subst
      (λ (r : Outcome Fault (List Effect) × Session).
        IsSound (record t { server = r.1 }) qs back replied there asked)
      (sym after)
      (record {
        split = refl;
        asked_eq = s.asked_eq;
        there_eq = s.there_eq;
        replied_eq = s.replied_eq;
        back_eq = refl;
        served = served.1;
        awaited =
            both_All (λ q. q.chan ≢ p.chan) _ _ qs
              (still-IsAwaited t.server.resp_chans p a.blank t.server.send_id_store
                t.server.next_chan t.calls)
              distinct.0 awaited.1;
        distinct = distinct.1;
        call = λ chan req e.
            still-IsCall t.server.resp_chans p a.blank (reply_of t.device) t.server.next_chan
              t.calls qs chan req v a.called e
              (subst
                (λ l. IsCall (reply_of t.device) t.server.resp_chans t.server.next_chan l chan req)
                s.split (s.call chan req e));
      })
