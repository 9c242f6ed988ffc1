-- ===== src/Server/Requesting/Routing.antt =====
-- Which request a response reaches, and what is left of a request that was answered.
use rtio.Prelude.{
  ◌==◌, if◌then◌else◌, ℕ, ◌≡◌, refl, none, some, List, [], ◌∷◌, ◌++◌, length, ok, arith,
  Outcome-cases, inl, inr,
}
use rtio.Proto.Header.{Header}
use rtio.Proto.Send.{decode_send_resp_body}
use rtio.Rest.Co.{decode_co_resp}
use rtio.SyncMap.{load, nat_eq}
use rtio.SyncMap.Laws.{load-delete, load-store}
use rtio.TimeKv
use rtio.TimeKv.{TimeKv}
use rtio.Server.State.{Session}
use rtio.Server.State.Reading.{read_full_lem}
use rtio.Server.Observing.{Arrival, body, closed, timeout}
use rtio.Server.Requesting.{
  receive_co_resp, co_result, server_send_respone, push_chan, chan_content,
}

pub get-del : {V : Type 0} (k : ℕ) (m : TimeKv V) → TimeKv.get k (TimeKv.del k m) ≡ none
unfolding TimeKv.get TimeKv.del
get-del k m = ground (arith, load-delete k k m.stored)

pub get-set :
    {V : Type 0} (now k : ℕ) (v : V) (m : TimeKv V) → TimeKv.get k (TimeKv.set now k v m) ≡ some v
unfolding TimeKv.get TimeKv.set
get-set now k v m = ground (arith, load-store k k (record { store_time = now; value = v }) m.stored)

co_result_session : (id : ℕ) (a : Arrival) (s : Session) → (co_result id a s).1 ≡ s
co_result_session id closed s = refl
co_result_session id timeout s = refl
co_result_session id (body b) s = elim (Outcome-cases (decode_co_resp id b)) [
  | inl (resp, e) ↦ rw e (ground arith)
  | inr (inl (x, e)) ↦ rw e refl
  | inr (inr e) ↦ rw e refl
]

pub receive_co_resp_session :
    (id : ℕ) (a : Arrival) (s : Session)
    → (receive_co_resp id a s).1 ≡ record s { send_id_store = TimeKv.del id s.send_id_store }
unfolding receive_co_resp
receive_co_resp_session id a s = co_result_session id a _

-- A response whose id is in flight: its body goes to the end of the channel that the request made,
-- and to no other, and the session is left as it was but for the bytes read.
server_send_respone_lem :
    (h : Header) (xs rest : List ℕ) (c d : ℕ) (s : Session)
    → s.conn_in ≡ xs ++ rest
    → length xs ≡ h.body_len
    → TimeKv.get h.id s.send_id_store ≡ some c
    → let t : Session = (server_send_respone h s).1 in
      ((server_send_respone h s).0 ≡ ok tt)
      × (load d t.resp_chans ≡ (
          if c == d
          then some (chan_content (load c s.resp_chans) ++ (xs ∷ []))
          else load d s.resp_chans))
      × (t.conn_in ≡ rest)
      × (t.send_id_store ≡ s.send_id_store)
unfolding server_send_respone push_chan decode_send_resp_body
server_send_respone_lem h xs rest c d s e n k =
    rw (k, read_full_lem h.body_len s xs rest e n)
      (ground
        (arith, load-store c d (chan_content (load c s.resp_chans) ++ (xs ∷ [])) s.resp_chans))

-- The same in one equation.
pub server_send_respone_pushes :
    (h : Header) (xs rest : List ℕ) (c : ℕ) (s : Session)
    → s.conn_in ≡ xs ++ rest
    → length xs ≡ h.body_len
    → TimeKv.get h.id s.send_id_store ≡ some c
    → server_send_respone h s ≡ (ok tt, push_chan c xs (record s { conn_in = rest }))
unfolding server_send_respone decode_send_resp_body
server_send_respone_pushes h xs rest c s e n k = rw (k, read_full_lem h.body_len s xs rest e n)
