-- ===== src/Apps/Examples.antt =====
-- A device that asks the device service for its first path.
use rtio.Prelude.{ℕ, ◌≡◌, refl, inl, none, List, [], ◌∷◌, ok, arith, false, true, some}
use rtio.Server.State.{new_session}
use rtio.Server.Incoming.{Config}
use rtio.Device.State.{DeviceSession, new_device_session}
use rtio.Device.Requesting.{get, post}
use rtio.Link.Resources.{through_server}
use rtio.Apps.{example1, text_for, verb_get, verb_post, example_service}
use rtio.Apps.Answering.{example_service_answers}

-- A checksum that tells the two paths apart.
abbrev last_byte : List ℕ → ℕ
last_byte [] = 0
last_byte (x ∷ []) = x
last_byte (x ∷ y ∷ rest) = last_byte (y ∷ rest)

abbrev config : Config
config = record {
  disable_deviceverify = false;
  disable_deviceservice = false;
  verifier = record { has_client = true; random = some 77; verify = λ id device secret. some 1 };
  service = example_service last_byte 5;
}

abbrev device : DeviceSession
device = new_device_session [] [] []

example_service_answers_example :
    ((get 4 (last_byte example1) (1 ∷ []) (through_server config (new_session [])) device).0
      ≡ ok (text_for verb_get example1, none))
    × ((post 4 (last_byte example1) (1 ∷ []) (through_server config (new_session [])) device).0
        ≡ ok (text_for verb_post example1, none))
unfolding new_session new_device_session
example_service_answers_example =
    example_service_answers last_byte config 5 4 example1 (1 ∷ []) (new_session []) device
      (λ e. omega (arith, e)) (inl refl) (omega arith) (omega arith) refl refl refl refl
