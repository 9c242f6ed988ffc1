-- ===== src/Backend.antt =====
-- internal/deviceaccess/access_server/backendconn/backendconn.go: the connections to the device service
-- and the device verifier. gRPC's Dial is not part of the program: what it gives is an argument, a
-- connection as a number.
pub mod Dialing
use rtio.Prelude.{ℕ, Option, none, some, List, []}
use rtio.Config.{ConfigKv, get_with_default}

-- The variables of the package.
pub record BackendConn : Type 0 where
  pub service_addr : List ℕ
  pub service_conn : Option ℕ
  pub verifier_addr : List ℕ
  pub verifier_conn : Option ℕ

-- A connection that is there, or else what dialing the address gives.
abbrev pub client_of : Option ℕ → Option ℕ → Option ℕ
client_of none dialed = dialed
client_of (some conn) dialed = some conn

unfoldable pub get_device_service_client :
    (List ℕ → Option ℕ) → BackendConn → Option ℕ × BackendConn
get_device_service_client dial b =
    let conn = client_of b.service_conn (dial b.service_addr) in
    (conn, record b { service_conn = conn })

unfoldable pub get_device_verifier_client :
    (List ℕ → Option ℕ) → BackendConn → Option ℕ × BackendConn
get_device_verifier_client dial b =
    let conn = client_of b.verifier_conn (dial b.verifier_addr) in
    (conn, record b { verifier_conn = conn })

-- "backend.deviceservice" and its default, and the same for the verifier, are arguments.
unfoldable pub init_backend_conn :
    List ℕ → List ℕ → List ℕ → List ℕ → (List ℕ → Option ℕ) → ConfigKv (List ℕ) → BackendConn
init_backend_conn service_key service_default verifier_key verifier_default dial config =
    let service = get_with_default service_key service_default config in
    let verifier = get_with_default verifier_key verifier_default config in
    record {
      service_addr = service;
      service_conn = dial service;
      verifier_addr = verifier;
      verifier_conn = dial verifier;
    }
