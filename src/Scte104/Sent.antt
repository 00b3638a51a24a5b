-- ===== src/Scte104/Sent.antt =====
-- klvanc_convert_SCTE_104_to_packetBytes makes the bytes of a message.
use libklvanc.Prelude.{
  ℕ, ◌+◌, ◌<◌, ◌≡◌, refl, ◌∙◌, List, [], ◌∷◌, ◌++◌, ok, ◌>>=◌, bind_then, Outcome, length, All,
  arith,
}
use libklvanc.Bitstream.Store.{IsByte}
use libklvanc.Codec.{Alloc}
use libklvanc.Codec.Laws.{Grants}
use libklvanc.Codec.Bytes.{serialize-IsByte}
use libklvanc.Codec.Whole.{
  Writes, Writes-nil, Writes-append, Writes-byte, Writes-word, Writes-long, Writes-bytes,
}
use libklvanc.Payload.Laws.{copy_bytes-all}
use libklvanc.Scte104.{
  Request, unset, sr_data, timesignal_data, dtmf_data, segmentation_data, avail_descriptor_data,
  descriptor_data, proprietary_data, tier_data, time_data, Operation, TimeValue, no_value,
  time_type_1, time_type_2, time_type_3, Mom,
}
use libklvanc.Scte104.Requests.{entries}
use libklvanc.Scte104.Builder.{
  gen_request, op_fields, ops_fields, timestamp_fields, mom_header_fields, mom_fields,
}
use libklvanc.Scte104.Fields.{request_fields, request_wire, request_bytes-wire}
use libklvanc.Scte104.Arrival.{request_id, request_bytes}
use libklvanc.Scte104.Bodies.{gen_request_lem}
use libklvanc.Scte104.Wire.{
  IsOperation, time_id, IsMessage, op_bytes, ops_bytes, time_bytes, mom_bytes, mom_rest,
}

-- Fields that are computed, and the bytes they write.
pub record Made (m : Outcome (List (ℕ × ℕ))) (bytes : List ℕ) : Type 0 where
  pub fields : List (ℕ × ℕ)
  pub result : m ≡ ok fields
  pub writes : Writes fields bytes

timestamp-Made :
    (t : ℕ) (v : TimeValue)
    → t ≡ time_id v
    → Made (timestamp_fields (record { time_type = t; value = v })) (time_bytes v)
unfolding timestamp_fields time_id time_bytes
timestamp-Made t no_value e = record { fields = []; result = rw e refl; writes = Writes-nil }
timestamp-Made t (time_type_1 s us) e = record {
  fields = (s, 32) ∷ (us, 16) ∷ [];
  result = rw e refl;
  writes = Writes-long (Writes-word Writes-nil us) s;
}
timestamp-Made t (time_type_2 h m s f) e = record {
  fields = (h, 8) ∷ (m, 8) ∷ (s, 8) ∷ (f, 8) ∷ [];
  result = rw e refl;
  writes = Writes-byte (Writes-byte (Writes-byte (Writes-byte Writes-nil f) s) m) h;
}
timestamp-Made t (time_type_3 n g) e = record {
  fields = (n, 8) ∷ (g, 8) ∷ [];
  result = rw e refl;
  writes = Writes-byte (Writes-byte Writes-nil g) n;
}

request_bytes-IsByte : (r : Request) → All IsByte (request_bytes r)
unfolding request_wire
request_bytes-IsByte r = rw (request_bytes-wire r) (serialize-IsByte (request_fields r))

pub request_id-lt : (r : Request) → request_id r < 65536
unfolding request_id
request_id-lt unset = omega arith
request_id-lt (sr_data d) = omega arith
request_id-lt (timesignal_data t) = omega arith
request_id-lt (dtmf_data d) = omega arith
request_id-lt (segmentation_data d) = omega arith
request_id-lt (avail_descriptor_data d) = omega arith
request_id-lt (descriptor_data d) = omega arith
request_id-lt (proprietary_data d) = omega arith
request_id-lt (tier_data t) = omega arith
request_id-lt (time_data d) = omega arith

module _ (allocs : ℕ → Alloc) (g : (i : ℕ) → Grants 255 (allocs i)) where
  op-Made :
      (i : ℕ) (o : Operation)
      → IsOperation o
      → Made (gen_request (allocs i) o.op_id o.request >>= op_fields o.op_id) (op_bytes o)
  op-Made i o h =
      let body : List ℕ = request_bytes o.request in
      let (rest, e) = gen_request_lem (allocs i) o.request (g i) h.1 in
      record {
        fields = (o.op_id, 16) ∷ (length body, 16) ∷ entries 8 body;
        result = rw (h.0) (rw e (rw (copy_bytes-all body rest) refl));
        writes =
            unfold op_bytes in
            Writes-word
              (Writes-word (Writes-bytes body (request_bytes-IsByte o.request)) (length body))
              o.op_id;
      }

  ops-Made :
      (i : ℕ) (ops : List Operation)
      → All IsOperation ops
      → Made (ops_fields allocs (length ops) i ops) (ops_bytes ops)
  unfolding ops_fields ops_bytes
  ops-Made i [] a = record { fields = []; result = refl; writes = Writes-nil }
  ops-Made i (o ∷ ops) a =
      let m = op-Made i o a.0 in
      let n = ops-Made (i + 1) ops a.1 in
      record {
        fields = m.fields ++ n.fields;
        result =
            bind_then (gen_request (allocs i) o.op_id o.request) (op_fields o.op_id) _ m.result
            ∙ rw (n.result) refl;
        writes = Writes-append m.writes n.writes;
      }

  pub mom-Made : (m : Mom) → IsMessage m → Made (mom_fields allocs m) (mom_bytes m.message_size m)
  unfolding mom_fields mom_rest
  mom-Made m h =
      let t = timestamp-Made m.timestamp.time_type m.timestamp.value h.time in
      let o = ops-Made 0 m.ops h.operations in
      record {
        fields = mom_header_fields m ++ (t.fields ++ (m.num_ops, 8) ∷ o.fields);
        result = rw (t.result, h.count, o.result) refl;
        writes =
            Writes-word
              (Writes-word
                (Writes-byte
                  (Writes-byte
                    (Writes-byte
                      (Writes-word
                        (Writes-byte
                          (Writes-byte (Writes-append t.writes (Writes-byte o.writes m.num_ops))
                            m.timestamp.time_type)
                          m.scte35_protocol_version)
                        m.dpi_pid_index)
                      m.message_number)
                    m.as_index)
                  m.protocol_version)
                m.message_size)
              0xffff;
      }
