-- ===== src/Apps.antt =====
-- The programs that the repository keeps as examples of what stands round the server: the device
-- service and the device verifier of examples/.
pub mod Answering
mod Examples
use rtio.Prelude.{
  ℕ, true, some, List, [], ◌∷◌, ◌++◌, length, ltb, ◌==◌, if◌then◌else◌, Outcome, ok, panic,
}
use rtio.Server.Resources.{ServiceReq, Reply, replied, Service}

-- "/uri/example1" and "/uri/example2".
abbrev pub example1 : List ℕ
example1 =
    b'/' ∷ b'u' ∷ b'r' ∷ b'i' ∷ b'/' ∷ b'e' ∷ b'x' ∷ b'a' ∷ b'm' ∷ b'p' ∷ b'l' ∷ b'e' ∷ b'1' ∷ []

abbrev pub example2 : List ℕ
example2 =
    b'/' ∷ b'u' ∷ b'r' ∷ b'i' ∷ b'/' ∷ b'e' ∷ b'x' ∷ b'a' ∷ b'm' ∷ b'p' ∷ b'l' ∷ b'e' ∷ b'2' ∷ []

abbrev pub text_for : List ℕ → List ℕ → List ℕ
text_for verb uri =
    b'r'
    ∷ b'e'
    ∷ b's'
    ∷ b'p'
    ∷ 32
    ∷ b'w'
    ∷ b'i'
    ∷ b't'
    ∷ b'h'
    ∷ 32
    ∷ b'd'
    ∷ b'a'
    ∷ b't'
    ∷ b'a'
    ∷ b','
    ∷ 32
    ∷ b'w'
    ∷ b'i'
    ∷ b't'
    ∷ b'h'
    ∷ 32
    ∷ (verb ++ (32 ∷ uri))

abbrev pub verb_get : List ℕ
verb_get = b'g' ∷ b'e' ∷ b't' ∷ []

abbrev pub verb_post : List ℕ
verb_post = b'p' ∷ b'o' ∷ b's' ∷ b't' ∷ []

-- `switch req.Uri` over the hashes of the two paths; CODE_METHOD_NOT_ALLOWED is 8, and CODE_OK is 1.
-- `uri_hash` is the CRC-32 of the standard library, which URIHash of pkg/rtioutils calls.
abbrev pub answer_for : (List ℕ → ℕ) → List ℕ → ServiceReq → Reply
answer_for uri_hash verb req =
    if req.uri == uri_hash example1
    then replied 1 (text_for verb example1)
    else if req.uri == uri_hash example2
    then replied 1 (text_for verb example2)
    else replied 8 []

unfoldable pub service_get : (List ℕ → ℕ) → ServiceReq → Reply
service_get uri_hash req = answer_for uri_hash verb_get req

unfoldable pub service_post : (List ℕ → ℕ) → ServiceReq → Reply
service_post uri_hash req = answer_for uri_hash verb_post req

-- The backend that the server has once it is connected to this service.
abbrev pub example_service : (List ℕ → ℕ) → ℕ → Service
example_service uri_hash random = record {
  has_client = true;
  random = some random;
  post = service_post uri_hash;
  get = service_get uri_hash;
}

-- Verify passes every device. The log line slices the last six bytes of the secret, which panics on a
-- shorter one.
unfoldable pub verify : List ℕ → Outcome (Unit {0}) ℕ
verify device_secret = if ltb (length device_secret) 6 then panic else ok 1
