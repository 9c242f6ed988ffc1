-- ===== src/Backend/Dialing.antt =====
-- How often a backend is dialed.
use rtio.Prelude.{
  ℕ, zero, suc, ◌≡◌, refl, ap, Option, none, some, List, [], ◌∷◌, ◌++◌, replicate, length,
}
use rtio.Backend.{BackendConn, client_of, get_device_verifier_client}

-- Calls of GetDeviceVerifierClient, over what dialing gives at each.
abbrev pub clients : List (Option ℕ) → BackendConn → List (Option ℕ)
clients [] b = []
clients (dialed ∷ dials) b =
    let r = get_device_verifier_client (λ addr. dialed) b in r.0 ∷ clients dials r.1

kept :
    (conn : ℕ) (dials : List (Option ℕ)) (b : BackendConn)
    → b.verifier_conn ≡ some conn
    → clients dials b ≡ replicate (length dials) (some conn)
unfolding get_device_verifier_client
kept conn [] b e = refl
kept conn (dialed ∷ dials) b e =
    let q = ap (λ c. client_of c dialed) e in
    rw (kept conn dials (record b { verifier_conn = client_of b.verifier_conn dialed }) q, q) refl

-- Without a connection to the verifier, a call of GetDeviceVerifierClient dials and fails as often as
-- dialing fails; from the first success on every call gives that connection, whatever dialing
-- would give.
clients_settle :
    (k conn : ℕ) (later : List (Option ℕ)) (b : BackendConn)
    → b.verifier_conn ≡ none
    → clients (replicate k none ++ (some conn ∷ later)) b
      ≡ replicate k none ++ replicate (suc (length later)) (some conn)
unfolding get_device_verifier_client
clients_settle zero conn later b e =
    let q = ap (λ c. client_of c (some conn)) e in
    rw (kept conn later (record b { verifier_conn = client_of b.verifier_conn (some conn) }) q, q)
      refl
clients_settle (suc k) conn later b e =
    let q = ap (λ c. client_of c none) e in
    rw
      (
        clients_settle k conn later (record b { verifier_conn = client_of b.verifier_conn none }) q,
        q,
      )
      refl
