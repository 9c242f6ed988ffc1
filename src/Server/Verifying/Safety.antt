-- ===== src/Server/Verifying/Safety.antt =====
-- Who passes the verification, and what the device is told.
use rtio.Prelude.{
  ℕ, zero, suc, take, drop, length-take, ltb, Outcome-cases, err, panic, [], ◌∷◌, ◌≤◌, ◌<◌, ◌≡◌,
  refl, ap, ◌∙◌, ◌⊎◌, inl, inr, Bool, true, false, Option, none, Option-cases, Bool-cases, ◌==◌,
  ==_iff, some, List, ◌++◌, length, get_or, Outcome, ok, arith, u32, if◌then◌else◌,
}
use rtio.Proto.Types.{Error, cap_level_to_size, get_cap_size}
use rtio.Proto.Header.{Header, encode_header}
use rtio.Proto.Verify.{VerifydReq, decode_verify_req_body, encode_verify_resp}
use rtio.Proto.Verify.RoundTrip.{decode_verify_req_body_sound}
use rtio.Utils.{gen_uint32_id}
use rtio.Server.State.{Fault, Session}
use rtio.Server.State.Reading.{read_full_lem, read_full_short, read_full_enough}
use rtio.Server.Verifying.{
  Verifier, code_pass, accept, respond, judge, ask_verifier, receive_verify_req, send_verify_resp,
}

-- The verifier, where it is enabled, passes the request.
abbrev pub Passes : Bool → Verifier → VerifydReq → Type 0
Passes disabled verifier req =
    (disabled ≡ true)
    ⊎ ((verifier.has_client ≡ true)
        × ((n : ℕ) × (verifier.random ≡ some n)
            × (verifier.verify (u32 n) req.device_id req.device_secret ≡ some code_pass)))

receive_judged :
    (disabled : Bool) (verifier : Verifier) (header : Header) (s : Session) (req : VerifydReq)
    (buf rest : List ℕ)
    → s.conn_in ≡ buf ++ rest
    → length buf ≡ header.body_len
    → decode_verify_req_body (some header) buf ≡ ok req
    → receive_verify_req disabled verifier header s
      ≡ (if disabled then accept header req else ask_verifier verifier header req)
          (record s { conn_in = rest })
unfolding receive_verify_req
receive_judged disabled verifier header s req buf rest e n d =
    rw (read_full_lem header.body_len s buf rest e n, d)
      (ground (arith, decode_verify_req_body_sound header buf req d))

respond_keeps :
    (header : Header) (b : Bool) (code : ℕ) (s : Session)
    → (respond header b code s).1.verify_pass ≡ s.verify_pass
unfolding send_verify_resp encode_verify_resp encode_header
respond_keeps header b code s = refl

accept_device :
    (header : Header) (req : VerifydReq) (s : Session)
    → (accept header req s).1.device_id ≡ req.device_id
unfolding get_cap_size send_verify_resp encode_verify_resp encode_header
accept_device header req s = ground arith

-- The session becomes verified, or the call says that it is.
abbrev pub LetsIn : Outcome Fault Bool × Session → Type 0
LetsIn r = (r.1.verify_pass ≡ true) ⊎ (r.0 ≡ ok true)

-- The verification that let the session in: a request on the connection, the id that the session then
-- has, and the answer of the verifier to that id and its secret.
abbrev pub IsVouched : Bool → Verifier → Header → Session → Session → Type 0
IsVouched disabled verifier header s t =
    (req : VerifydReq) × (buf rest : List ℕ) × (s.conn_in ≡ buf ++ rest)
    × (length buf ≡ header.body_len)
    × (decode_verify_req_body (some header) buf ≡ ok req)
    × (t.device_id ≡ req.device_id)
    × Passes disabled verifier req

refused :
    (header : Header) (b : Bool) (code : ℕ) (s : Session)
    → b ≡ false
    → s.verify_pass ≡ false
    → LetsIn (respond header b code s)
    → ⊥
unfolding send_verify_resp encode_verify_resp encode_header
refused header b code s e f (inl p) = absurd (ground (arith, f, p))
refused header b code s e f (inr p) = absurd (ground (arith, e, p))

judged :
    (header : Header) (req : VerifydReq) (answer : Option ℕ) (s : Session)
    → s.verify_pass ≡ false
    → LetsIn (judge header req answer s)
    → ((judge header req answer s).1.device_id ≡ req.device_id) × (answer ≡ some code_pass)
judged header req none s f p = absurd (refused header s.verify_pass 0 s f f p)
judged header req (some code) s f p = elim (Bool-cases (code == code_pass)) [
  | inl e ↦ (rw e (accept_device header req s), ap some ((==_iff code code_pass).0 e))
  | inr e ↦ absurd (refused header false 3 s refl f (rw e at p))
]

vouched :
    (verifier : Verifier) (header : Header) (req : VerifydReq) (s : Session)
    → s.verify_pass ≡ false
    → LetsIn (ask_verifier verifier header req s)
    → ((ask_verifier verifier header req s).1.device_id ≡ req.device_id) × Passes false verifier req
unfolding gen_uint32_id
vouched verifier header req s f p = elim (Bool-cases verifier.has_client) [
  | inr e ↦ absurd (refused header false 0 s refl f (rw e at p))
  | inl e ↦ elim (Option-cases verifier.random) [
    | inl q ↦ absurd (ground (arith, f, rw (e, q) at p))
    | inr (n, q) ↦
        let (id, passed) =
          judged header req (verifier.verify (u32 n) req.device_id req.device_secret) s f
            (rw (e, q) at p) in
        (rw (e, q) id, inr (e, (n, q, passed)))
  ]
]

take-drop : (n : ℕ) (xs : List ℕ) → xs ≡ take n xs ++ drop n xs
take-drop zero xs = refl
take-drop (suc n) [] = refl
take-drop (suc n) (x ∷ xs) = ap (λ l. x ∷ l) (take-drop n xs)

undecoded :
    (disabled : Bool) (verifier : Verifier) (header : Header) (s : Session)
    (r : Outcome Error VerifydReq)
    → header.body_len ≤ length s.conn_in
    → decode_verify_req_body (some header) (take header.body_len s.conn_in) ≡ r
    → ((req : VerifydReq) → r ≡ ok req → ⊥)
    → s.verify_pass ≡ false
    → LetsIn (receive_verify_req disabled verifier header s)
    → ⊥
unfolding receive_verify_req
undecoded disabled verifier header s (ok req) n e k f p = absurd (k req refl)
undecoded disabled verifier header s (err x) n e k f p =
    absurd (ground (arith, f, rw (read_full_enough header.body_len s n, e) at p))
undecoded disabled verifier header s panic n e k f p =
    absurd (ground (arith, f, rw (read_full_enough header.body_len s n, e) at p))

unread :
    (disabled : Bool) (verifier : Verifier) (header : Header) (s : Session)
    → length s.conn_in < header.body_len
    → s.verify_pass ≡ false
    → LetsIn (receive_verify_req disabled verifier header s)
    → ⊥
unfolding receive_verify_req
unread disabled verifier header s n f p =
    absurd (ground (arith, f, rw (read_full_short header.body_len s n) at p))

-- The request has come whole and decodes.
decoded :
    (disabled : Bool) (verifier : Verifier) (header : Header) (s : Session) (req : VerifydReq)
    → header.body_len ≤ length s.conn_in
    → decode_verify_req_body (some header) (take header.body_len s.conn_in) ≡ ok req
    → s.verify_pass ≡ false
    → LetsIn (receive_verify_req disabled verifier header s)
    → IsVouched disabled verifier header s (receive_verify_req disabled verifier header s).1
decoded disabled verifier header s req n d f p =
    let buf = take header.body_len s.conn_in in
    let rest = drop header.body_len s.conn_in in
    let split = take-drop header.body_len s.conn_in in
    let len : length buf ≡ header.body_len = length-take header.body_len s.conn_in n in
    let q = receive_judged disabled verifier header s req buf rest split len d in
    let (id, passes) = by_verifier disabled (rw q at p) in
    (
      req,
      buf,
      rest,
      split,
      len,
      d,
      ap (λ (r : Outcome Fault Bool × Session). r.1.device_id) q ∙ id,
      passes,
    )
  where
    by_verifier :
        (b : Bool)
        → LetsIn (
            (if b then accept header req else ask_verifier verifier header req)
              (record s { conn_in = drop header.body_len s.conn_in }))
        → (((if b then accept header req else ask_verifier verifier header req)
              (record s { conn_in = drop header.body_len s.conn_in })).1.device_id
            ≡ req.device_id)
          × Passes b verifier req
    by_verifier true l =
        (accept_device header req (record s { conn_in = drop header.body_len s.conn_in }), inl refl)
    by_verifier false l =
        vouched verifier header req (record s { conn_in = drop header.body_len s.conn_in }) f l

-- A session that was not verified becomes so, or is added to the map by tcpIncomming since the call
-- says that it is, only by a request that is on the connection and decodes, and whose device id the
-- session then has; and only if the verifier is disabled, or there is a client of it, and asked with
-- the serial of the random source about this device id with this secret, it answered PASS.
pub receive_verify_req_safe :
    (disabled : Bool) (verifier : Verifier) (header : Header) (s : Session)
    → s.verify_pass ≡ false
    → LetsIn (receive_verify_req disabled verifier header s)
    → IsVouched disabled verifier header s (receive_verify_req disabled verifier header s).1
receive_verify_req_safe disabled verifier header s f p =
    elim (Bool-cases (ltb (length s.conn_in) header.body_len)) [
      | inl short ↦ absurd (unread disabled verifier header s (ground arith) f p)
      | inr long ↦
          let n : header.body_len ≤ length s.conn_in = ground arith in
          elim (Outcome-cases
            (decode_verify_req_body (some header) (take header.body_len s.conn_in))) [
              | inl (req, d) ↦ decoded disabled verifier header s req n d f p
              | inr (inl (x, e)) ↦
                  absurd (
                    undecoded disabled verifier header s (err x) n e (λ req q. absurd (cc (q))) f p)
              | inr (inr e) ↦
                  absurd
                    (undecoded disabled verifier header s panic n e (λ req q. absurd (cc (q))) f p)
            ]
    ]

accept_lem :
    (header : Header) (req : VerifydReq) (s : Session)
    → req.cap_level < 4
    → accept header req s ≡ (
      ok true,
      record s {
        verify_pass = true;
        device_id = req.device_id;
        body_cap_size = get_or cap_level_to_size req.cap_level 0;
      },
    )
unfolding get_cap_size
accept_lem header req s h = ground arith

-- A request that is decoded and passes makes the session a verified one, with the id of the request
-- and the capacity of its level. And nothing is sent: the device gets no DeviceVerifyResp.
pub receive_verify_req_accepts :
    (disabled : Bool) (verifier : Verifier) (header : Header) (s : Session) (req : VerifydReq)
    (buf rest : List ℕ)
    → s.conn_in ≡ buf ++ rest
    → length buf ≡ header.body_len
    → decode_verify_req_body (some header) buf ≡ ok req
    → req.cap_level < 4
    → Passes disabled verifier req
    → receive_verify_req disabled verifier header s ≡ (
      ok true,
      record s {
        conn_in = rest;
        verify_pass = true;
        device_id = req.device_id;
        body_cap_size = get_or cap_level_to_size req.cap_level 0;
      },
    )
unfolding gen_uint32_id
receive_verify_req_accepts disabled verifier header s req buf rest e n d h p =
    receive_judged disabled verifier header s req buf rest e n d ∙ passing p
  where
    passing :
        Passes disabled verifier req
        → (if disabled then accept header req else ask_verifier verifier header req)
            (record s { conn_in = rest })
          ≡ (
            ok true,
            record s {
              conn_in = rest;
              verify_pass = true;
              device_id = req.device_id;
              body_cap_size = get_or cap_level_to_size req.cap_level 0;
            },
          )
    passing (inl q) = rw q (accept_lem header req (record s { conn_in = rest }) h)
    passing (inr (c, (m, r, w))) =
        ground (arith, accept_lem header req (record s { conn_in = rest }) h)
