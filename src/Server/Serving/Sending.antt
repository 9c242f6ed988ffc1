-- ===== src/Server/Serving/Sending.antt =====
-- What tcpOutgoing puts on the connection.
use rtio.Prelude.{
  ℕ, suc, ◌+◌, ◌≡◌, refl, sym, ap, ◌∙◌, ◌⊎◌, inl, inr, true, false, Bool-cases, some, List, [], ◌∷◌,
  ◌++◌, append_assoc, append-nil, take-append, take-append-drop, length, take, drop, arith,
}
use rtio.Utils.{Written, Total}
use rtio.Utils.Writing.{IsWriter, write_full_ends}
use rtio.Server.State.{conn_write}
use rtio.Server.Serving.{waiting, failed, Transmission, put_frame, tcp_outgoing}

-- The bytes of frames, one after the other.
abbrev pub bytes_of : List (List ℕ) → List ℕ
bytes_of [] = []
bytes_of (f ∷ fs) = f ++ bytes_of fs

-- Every one of these bytes is on the connection, and the loop waits for more; or it has ended with the
-- error of a write, and a first part of them is.
abbrev pub IsSent : Transmission → List ℕ → Type 0
IsSent t bytes =
    ((t.outgoing ≡ waiting) × (t.written ≡ bytes) × (t.left ≡ []))
    ⊎ ((t.outgoing ≡ failed conn_write) × ((lost : List ℕ) × (t.written ++ lost ≡ bytes)))

failed_IsSent :
    (next : Transmission) (queue : List (List ℕ)) (buf bytes : List ℕ) (n : ℕ)
    → IsSent
        (put_frame next queue buf (some (record { writelen = n; failed = true })))
        (buf ++ bytes)
failed_IsSent next queue buf bytes n = inr (
  refl,
  (
    drop n buf ++ bytes,
    sym (append_assoc (take n buf) (drop n buf) bytes)
        ∙ ap (λ b. b ++ bytes) (take-append-drop n buf),
  ),
)

whole_IsSent :
    (next : Transmission) (queue : List (List ℕ)) (buf bytes : List ℕ) (n : ℕ)
    → n ≡ length buf
    → IsSent next bytes
    → IsSent
        (put_frame next queue buf (some (record { writelen = n; failed = false })))
        (buf ++ bytes)
whole_IsSent next queue buf bytes n e sent =
    let all : take n buf ≡ buf =
      ap (λ k. take k buf) e
      ∙ (ap (take (length buf)) (sym (append-nil buf)) ∙ take-append buf []) in
    elim sent [
      | inl (o, w, l) ↦ inl (o, rw (all, w) refl, l)
      | inr (o, (lost, q)) ↦
          inr (o, (lost, rw (all) (append_assoc buf next.written lost ∙ ap (λ b. buf ++ b) q)))
    ]

put_frame-IsSent :
    (next : Transmission) (queue : List (List ℕ)) (buf bytes : List ℕ) (r : Total)
    → (r.failed ≡ true) ⊎ (r.writelen ≡ length buf)
    → IsSent next bytes
    → IsSent (put_frame next queue buf (some r)) (buf ++ bytes)
put_frame-IsSent next queue buf bytes r end sent = elim (Bool-cases r.failed) [
  | inl f ↦ rw f (failed_IsSent next queue buf bytes r.writelen)
  | inr g ↦ rw g (whole_IsSent next queue buf bytes r.writelen (ground (arith, g, end)) sent)
]

-- On a connection that takes no more than it is offered, and at least one byte unless it fails,
-- tcpOutgoing either writes every frame of its channel whole and in order, and waits for the next, or
-- ends with the error of a write, and what it has written is a first part of those bytes.
tcp_outgoing_writes :
    (write : ℕ → ℕ → List ℕ → Written) (n : ℕ) (queue : List (List ℕ))
    → ((k : ℕ) → IsWriter (write k))
    → IsSent (tcp_outgoing write n queue) (bytes_of queue)
unfolding tcp_outgoing
tcp_outgoing_writes write n [] w = inl (refl, refl, refl)
tcp_outgoing_writes write n (buf ∷ queue) w =
    let q =
      write_full_ends (suc (length buf)) (write n) 0 buf 0 (w n) (omega arith) (omega arith) in
    rw q.1 (
      put_frame-IsSent (tcp_outgoing write (n + 1) queue) queue buf (bytes_of queue) q.0
        (elim q.3 [ inl done ↦ inr done.1 | inr lost ↦ inl lost.0 ])
        (tcp_outgoing_writes write (n + 1) queue w))
