-- ===== src/Link/Traffic/Freshness.antt =====
-- The ids of requests: those in flight are among the last that were given.
use rtio.Prelude.{
  ℕ, ◌+◌, ◌%◌, ◌≤◌, ◌<◌, ◌≡◌, ◌≢◌, refl, sym, ap, subst, ◌∙◌, ◌⊎◌, inl, inr, ◌==◌, Bool-cases,
  ==_iff, none, List, [], ◌∷◌, map, Outcome, arith,
}
use rtio.SyncMap.{nat_eq}
use rtio.TimeKv.{TimeKv}
use rtio.TimeKv
use rtio.Server.State.{Session, Fault}
use rtio.Server.Observing.{body}
use rtio.Server.Requesting.{push_chan}
use rtio.Server.Requesting.Routing.{receive_co_resp_session}
use rtio.Server.Requesting.Sending.{next_header_id}
use rtio.Server.Serving.Sending.{bytes_of}
use rtio.Server.Incoming.{Config, Effect}
use rtio.Rest.Co.{CoReq}
use rtio.Link.Traffic.{
  System, Move, server_writes, device_reads, device_writes, server_reads, Step, moves, sends,
  returns, CanSend, reply_of,
}
use rtio.Link.Traffic.Invariant.{
  All, Pending, reply_frame, reply_bytes, IsServed, IsAwaited, IsSound,
}
use rtio.Link.Traffic.Moving.{server_read, server_round_lem}
use rtio.Link.Traffic.Calling.{asking_lem, asked, get_set}
use rtio.Link.Traffic.Returning.{returned, get_del}
use rtio.Link.Traffic.Reaching.{Reach, start, later, Places, Reach-Places}

-- How many requests were made on the way to a state.
abbrev step_requests : {c : Config} {t u : System} → Step c t u → ℕ
step_requests (moves m) = 0
step_requests (sends t now uri method payload out v) = 1
step_requests (returns t chan req b bs called k full) = 0

abbrev pub requests : {c : Config} {t : System} → Reach c t → ℕ
requests (start {t} i) = 0
requests (later r st) = requests r + step_requests st

-- No id is in use where it began.
abbrev pub StartsFree : {c : Config} {t : System} → Reach c t → Type 0
StartsFree (start {t} i) = (id : ℕ) → TimeKv.get id t.server.send_id_store ≡ none
StartsFree (later r st) = StartsFree r

-- The id is not in use, or is one of the `n` that were given after `base`.
abbrev IsGiven : ℕ → ℕ → TimeKv ℕ → ℕ → Type 0
IsGiven base n ids id =
    (TimeKv.get id ids ≡ none) ⊎ ((j : ℕ) × (0 < j) × (j ≤ n) × (id ≡ (base + j) % 65536))

record IsFresh (n : ℕ) (s : Session) : Type 0 where
  base : ℕ
  rolled : s.rolling_header_id % 65536 ≡ (base + n) % 65536
  given : (id : ℕ) → IsGiven base n s.send_id_store id

-- The same counter and the same store.
same-IsFresh :
    (n : ℕ) (s u : Session)
    → s.rolling_header_id ≡ u.rolling_header_id
    → s.send_id_store ≡ u.send_id_store
    → IsFresh n s
    → IsFresh n u
same-IsFresh n s u r i f = record {
  base = f.base;
  rolled = ap (λ x. x % 65536) (sym r) ∙ f.rolled;
  given = subst (λ ids. (id : ℕ) → IsGiven f.base n ids id) i f.given;
}

pushed-IsFresh :
    (n chan : ℕ) (b : List ℕ) (s : Session) → IsFresh n s → IsFresh n (push_chan chan b s)
unfolding push_chan
pushed-IsFresh n chan b s f = same-IsFresh n _ _ refl refl f

read-IsFresh :
    (c : Config) (t : System) (n : ℕ) (ps back replied there asked : List Pending)
    → t.server.conn_in ≢ []
    → IsSound t ps back replied there asked
    → IsFresh n t.server
    → IsFresh n (server_read c t).server
read-IsFresh c t n ps [] replied there asked e s f = absurd (e s.back_eq)
read-IsFresh c t n ps (p ∷ back) replied there asked e s f =
    let v : IsServed (reply_of t.device) p =
      (subst (All (IsServed (reply_of t.device))) s.split s.served).0 in
    let a : IsAwaited t.server.send_id_store t.server.resp_chans t.server.next_chan t.calls p =
      (subst (All (IsAwaited t.server.send_id_store t.server.resp_chans t.server.next_chan t.calls))
        s.split s.awaited).0 in
    let q =
      server_round_lem c p (bytes_of (map reply_frame back)) t.server v.fits v.out_le a.known
        s.back_eq in
    subst (λ (r : Outcome Fault (List Effect) × Session). IsFresh n r.1) (sym q.1)
      (pushed-IsFresh n p.chan (reply_bytes p.req p.out)
        (record (t.server) { conn_in = bytes_of (map reply_frame back) })
        (same-IsFresh n _ _ refl refl f))

Move-IsFresh :
    {c : Config} {t u : System} (n : ℕ)
    → Move c t u
    → Places t
    → IsFresh n t.server
    → IsFresh n u.server
Move-IsFresh n (server_writes t f fs e) s k = same-IsFresh n _ _ refl refl k
Move-IsFresh n (device_reads t e) s k = k
Move-IsFresh n (device_writes t f fs e) s k = same-IsFresh n _ _ refl refl k
Move-IsFresh {c} n (server_reads t e) s k =
    read-IsFresh c t n s.ps s.back s.replied s.there s.asked e s.sound k

-- One id more has been given.
IsGiven-more :
    (now base n k chan id : ℕ) (ids : TimeKv ℕ)
    → k ≡ (base + (n + 1)) % 65536
    → IsGiven base n ids id
    → IsGiven base (n + 1) (TimeKv.set now k chan ids) id
IsGiven-more now base n k chan id ids e g = elim (Bool-cases (k == id)) [
  | inl q ↦ inr (n + 1, omega arith, omega arith, sym ((==_iff k id).0 q) ∙ e)
  | inr q ↦ elim g [
    | inl r ↦ inl (ground (arith, r, q, get_set now k id chan ids))
    | inr (j, lo, hi, r) ↦ inr (j, lo, omega (arith, hi), r)
  ]
]

asked-IsFresh :
    (now : ℕ) (t : System) (uri method : ℕ) (payload out : List ℕ) (n : ℕ)
    → CanSend t uri method payload out
    → IsFresh n t.server
    → IsFresh (n + 1) (asked t now uri method payload).server
asked-IsFresh now t uri method payload out n v f =
    subst (IsFresh (n + 1)) (sym (asking_lem now t uri method payload out v)) (record {
      base = f.base;
      rolled = omega (arith, f.rolled);
      given = λ id.
          IsGiven-more now f.base n (next_header_id t.server) t.server.next_chan id
            t.server.send_id_store (omega (arith, f.rolled)) (f.given id);
    })

returned-IsFresh :
    (t : System) (req : CoReq) (b : List ℕ) (n : ℕ)
    → IsFresh n t.server
    → IsFresh n (returned t req b).server
returned-IsFresh t req b n f =
    subst (IsFresh n) (sym (receive_co_resp_session req.header_id (body b) t.server)) (record {
      base = f.base;
      rolled = f.rolled;
      given = λ id. elim (f.given id) [
        | inl e ↦ inl (ground (arith, e, get_del req.header_id id t.server.send_id_store))
        | inr g ↦ inr g
      ];
    })

no_more-IsFresh : (n : ℕ) (s : Session) → IsFresh n s → IsFresh (n + 0) s
no_more-IsFresh n s f = subst (λ k. IsFresh k s) (omega arith) f

Reach-IsFresh :
    {c : Config} {t : System} (r : Reach c t) → StartsFree r → IsFresh (requests r) t.server
Reach-IsFresh (start {t} i) free = record {
  base = t.server.rolling_header_id;
  rolled = omega arith;
  given = λ id. inl (free id);
}
Reach-IsFresh (later r (moves m)) free =
    no_more-IsFresh (requests r) _
      (Move-IsFresh (requests r) m (Reach-Places r) (Reach-IsFresh r free))
Reach-IsFresh (later r (sends t now uri method payload out v)) free =
    asked-IsFresh now t uri method payload out (requests r) v (Reach-IsFresh r free)
Reach-IsFresh (later r (returns t chan req b bs called k full)) free =
    no_more-IsFresh (requests r) _ (returned-IsFresh t req b (requests r) (Reach-IsFresh r free))

-- On a session that begins with no id in use, the id of each of the first 65536 requests is free
-- when the request is made, whatever callers and loops have done before, where the requests and
-- answers fit a frame and no caller times out: no request takes the response channel of another
-- away.
pub first_ids_free :
    (c : Config) (t : System) (r : Reach c t)
    → StartsFree r
    → requests r < 65536
    → TimeKv.get (next_header_id t.server) t.server.send_id_store ≡ none
first_ids_free c t r free few =
    let f = Reach-IsFresh r free in
    elim (f.given (next_header_id t.server)) [
      | inl e ↦ e
      | inr (j, lo, hi, e) ↦ absurd (omega (arith, lo, hi, few, e, f.rolled))
    ]
