-- ===== src/Server/Sessions/Registry.antt =====
-- A device has one session, the newest, and sessionNum counts the devices.
use rtio.Prelude.{
  ◌≢◌, ◌⊎◌, Bool-cases, sym, subst, ℕ, ◌%◌, ◌≡◌, none, some, List, length, inl, inr, if◌then◌else◌,
  arith,
}
use rtio.SyncMap.{bytes_eq}
use rtio.SyncMap.Laws.{
  IsMap, store-IsMap, delete-IsMap, length-store, length-delete, load-store, load-delete,
}
use rtio.Server.Sessions.{
  ServerTcp, get_session_of, set_session, delete_session, del_session, put_session,
}

pub record IsCounted (s : ServerTcp) : Type 0 where
  pub distinct : IsMap s.sessions
  pub counted : s.session_num ≡ length s.sessions % 4294967296

pub del_session-IsCounted :
    (id : List ℕ) (h : ℕ) (s : ServerTcp)
    → get_session_of id s.sessions ≡ some h
    → IsCounted s
    → IsCounted (del_session id s)
unfolding del_session delete_session get_session_of
del_session-IsCounted id h s e v = record {
  distinct = delete-IsMap id s.sessions v.distinct;
  counted = omega (arith, v.counted, length-delete id h s.sessions v.distinct e);
}

pub put_session-IsCounted :
    (id : List ℕ) (h : ℕ) (s : ServerTcp)
    → get_session_of id s.sessions ≡ none
    → IsCounted s
    → IsCounted (put_session id h s)
unfolding put_session set_session get_session_of
put_session-IsCounted id h s e v = record {
  distinct = store-IsMap id h s.sessions v.distinct;
  counted = ground (arith, v.counted, length-store id h s.sessions);
}

pub get_put_session :
    (id other : List ℕ) (h : ℕ) (s : ServerTcp)
    → get_session_of other (put_session id h s).sessions
      ≡ (if bytes_eq.beq id other then some h else get_session_of other s.sessions)
unfolding get_session_of put_session set_session
get_put_session id other h s = load-store id other h s.sessions

pub get_del_session :
    (id other : List ℕ) (s : ServerTcp)
    → get_session_of other (del_session id s).sessions
      ≡ (if bytes_eq.beq id other then none else get_session_of other s.sessions)
unfolding get_session_of del_session delete_session
get_del_session id other s = load-delete id other s.sessions

pub get_put-del_session :
    (id other : List ℕ) (h : ℕ) (s : ServerTcp)
    → get_session_of other (put_session id h (del_session id s)).sessions
      ≡ (if bytes_eq.beq id other then some h else get_session_of other s.sessions)
get_put-del_session id other h s =
    ground (arith, get_put_session id other h (del_session id s), get_del_session id other s)

-- What is found without a device was there, for another device.
pub found_after-del_session :
    (id other : List ℕ) (k : ℕ) (s : ServerTcp)
    → get_session_of other (del_session id s).sessions ≡ some k
    → (get_session_of other s.sessions ≡ some k) × (other ≢ id)
found_after-del_session id other k s e = elim (Bool-cases (bytes_eq.beq id other)) [
  | inl b ↦ absurd (ground (arith, e, b, get_del_session id other s))
  | inr b ↦ (
    ground (arith, e, b, get_del_session id other s),
    λ q. absurd (ground (arith, b, sym q, bytes_eq.beq_iff id other)),
  )
]

pub others_after-del_session :
    (id other : List ℕ) (s : ServerTcp)
    → other ≢ id
    → get_session_of other (del_session id s).sessions ≡ get_session_of other s.sessions
others_after-del_session id other s d = elim (Bool-cases (bytes_eq.beq id other)) [
  | inl b ↦ absurd (d (ground (arith, b, bytes_eq.beq_iff id other)))
  | inr b ↦ ground (arith, b, get_del_session id other s)
]

pub gone_after-del_session :
    (id : List ℕ) (s : ServerTcp) → get_session_of id (del_session id s).sessions ≡ none
gone_after-del_session id s = ground (arith, get_del_session id id s, bytes_eq.beq_iff id id)

pub found_after-put_session :
    (id other : List ℕ) (h k : ℕ) (s : ServerTcp)
    → get_session_of other (put_session id h s).sessions ≡ some k
    → ((other ≡ id) × (k ≡ h)) ⊎ (get_session_of other s.sessions ≡ some k)
found_after-put_session id other h k s e = elim (Bool-cases (bytes_eq.beq id other)) [
  | inl b ↦ inl (
    ground (arith, b, bytes_eq.beq_iff id other),
    ground (arith, e, b, get_put_session id other h s),
  )
  | inr b ↦ inr (ground (arith, e, b, get_put_session id other h s))
]

pub put_after-put_session :
    (id : List ℕ) (h : ℕ) (s : ServerTcp) → get_session_of id (put_session id h s).sessions ≡ some h
put_after-put_session id h s = ground (arith, get_put_session id id h s, bytes_eq.beq_iff id id)

pub kept_after-put_session :
    (id other : List ℕ) (h k : ℕ) (s : ServerTcp)
    → get_session_of id s.sessions ≡ none
    → get_session_of other s.sessions ≡ some k
    → get_session_of other (put_session id h s).sessions ≡ some k
kept_after-put_session id other h k s e q = elim (Bool-cases (bytes_eq.beq id other)) [
  | inl b ↦
      let same : id ≡ other = ground (arith, b, bytes_eq.beq_iff id other) in
      absurd (ground (arith, e, subst (λ i. get_session_of i s.sessions ≡ some k) (sym same) q))
  | inr b ↦ ground (arith, b, q, get_put_session id other h s)
]
