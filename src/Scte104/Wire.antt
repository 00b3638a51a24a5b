-- ===== src/Scte104/Wire.antt =====
-- The bytes of a message, and what arrives of it.
use libklvanc.Prelude.{ℕ, ◌+◌, ◌/◌, ◌%◌, ◌^◌, ◌<◌, ◌≡◌, List, [], ◌∷◌, ◌++◌, map, length, All}
use libklvanc.Scte104.{Operation, TimeValue, no_value, time_type_1, time_type_2, time_type_3, Mom}
use libklvanc.Scte104.Arrival.{request_id, IsRequest, request_bytes, request_arrived}

-- The identifier names the member of the union that is set.
abbrev pub IsOperation : Operation → Type 0
IsOperation o = (o.op_id ≡ request_id o.request) × IsRequest o.request

unfoldable pub time_id : TimeValue → ℕ
time_id no_value = 0
time_id (time_type_1 s us) = 1
time_id (time_type_2 h m s f) = 2
time_id (time_type_3 n e) = 3

-- A message as an application fills it.
pub record IsMessage (m : Mom) : Type 0 where
  pub time : m.timestamp.time_type ≡ time_id m.timestamp.value
  pub count : m.num_ops ≡ length m.ops
  pub few : m.num_ops < 256
  pub operations : All IsOperation m.ops

unfoldable pub op_bytes : Operation → List ℕ
op_bytes o =
    let body = request_bytes o.request in
    o.op_id / 256 % 256 ∷ o.op_id % 256 ∷ length body / 256 % 256 ∷ length body % 256 ∷ body

unfoldable pub ops_bytes : List Operation → List ℕ
ops_bytes [] = []
ops_bytes (o ∷ ops) = op_bytes o ++ ops_bytes ops

unfoldable pub time_bytes : TimeValue → List ℕ
time_bytes no_value = []
time_bytes (time_type_1 s us) =
    s / 65536 / 256 % 256
    ∷ s / 65536 % 256
    ∷ s / 256 % 256
    ∷ s % 256
    ∷ us / 256 % 256
    ∷ us % 256
    ∷ []
time_bytes (time_type_2 h m s f) = h % 256 ∷ m % 256 ∷ s % 256 ∷ f % 256 ∷ []
time_bytes (time_type_3 n e) = n % 256 ∷ e % 256 ∷ []

-- What stands behind the size.
unfoldable pub mom_rest : Mom → List ℕ
mom_rest m =
    m.protocol_version % 256
      ∷ m.as_index % 256
      ∷ m.message_number % 256
      ∷ m.dpi_pid_index / 256 % 256
      ∷ m.dpi_pid_index % 256
      ∷ m.scte35_protocol_version % 256
      ∷ m.timestamp.time_type % 256
      ∷ time_bytes m.timestamp.value
    ++ m.num_ops % 256 ∷ ops_bytes m.ops

abbrev pub mom_bytes : ℕ → Mom → List ℕ
mom_bytes size m = 0xff ∷ 0xff ∷ size / 256 % 256 ∷ size % 256 ∷ mom_rest m

-- The number of bytes of a message.
abbrev pub mom_size : Mom → ℕ
mom_size m = 4 + length (mom_rest m)

unfoldable pub time_arrived : TimeValue → TimeValue
time_arrived no_value = no_value
time_arrived (time_type_1 s us) = time_type_1 (s % 2 ^ 32) (us % 2 ^ 16)
time_arrived (time_type_2 h m s f) = time_type_2 (h % 256) (m % 256) (s % 256) (f % 256)
time_arrived (time_type_3 n e) = time_type_3 (n % 256) (e % 256)

unfoldable pub operation_arrived : Operation → Operation
operation_arrived o = record {
  op_id = o.op_id;
  data_length = length (request_bytes o.request);
  body = request_bytes o.request;
  request = request_arrived o.request;
}

-- Every member cut to its width; the size is the one that was computed.
unfoldable pub mom_arrived : Mom → Mom
mom_arrived m = record {
  rsvd = 0xffff;
  message_size = mom_size m;
  protocol_version = m.protocol_version % 2 ^ 8;
  as_index = m.as_index % 2 ^ 8;
  message_number = m.message_number % 2 ^ 8;
  dpi_pid_index = m.dpi_pid_index % 2 ^ 16;
  scte35_protocol_version = m.scte35_protocol_version % 2 ^ 8;
  timestamp = record { time_type = m.timestamp.time_type; value = time_arrived m.timestamp.value };
  num_ops = m.num_ops;
  ops = map operation_arrived m.ops;
}
