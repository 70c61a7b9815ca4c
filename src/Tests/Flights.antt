-- ===== src/Tests/Flights.antt =====
-- Two calls of one storage node at the same time.
use nvmeof_csi.Base.{ℕ, ◌<◌, ◌+◌, ◌^◌, ◌≡◌, refl, String, none, some, [], true, arith}
use nvmeof_csi.Rpc.Call.{Response, next_id, read_response}
use nvmeof_csi.Rpc.Flights.{Flight, Sky, Skies, clear, onward, departs, set_flight}
use nvmeof_csi.Rpc.Flights.Safety.{accepted_by_one}
use nvmeof_csi.Tests.Target.{target, client}

abbrev first : Flight
first = record { id = 1; ticket = 1 }

abbrev second : Flight
second = record { id = 2; ticket = 2 }

abbrev both : Sky target
both = record {
  client = record (client []) { rpc_id = 2 };
  issued = 2;
  flight = set_flight (set_flight (λ _. none) 0 (some first)) 1 (some second);
}

both-Skies : Skies target both
unfolding next_id
both-Skies = onward (onward (clear (client []) refl) (departs 0 refl)) (departs 1 refl)

-- The response to the second call.
abbrev response : Response String
response = record {
  id = 2;
  error_code_zero = true;
  error_message = "";
  result = "4c1d";
  decode_error = none;
}

response_lem :
    read_response "bdev_lvol_create" second.id response ≡ record { result = "4c1d"; error = none }
unfolding read_response
response_lem = refl

abbrev caller : ℕ
caller = 1

recent : both.issued < second.ticket + 2 ^ 32
recent = omega arith

accepted_by_one_example : caller ≡ caller
accepted_by_one_example =
    accepted_by_one both-Skies caller caller second second refl refl recent recent
      "bdev_lvol_create" "bdev_lvol_create" response "4c1d" "4c1d" response_lem response_lem
