-- ===== src/Scte104/Received.antt =====
-- parse_SCTE_104 on the bytes of a message.
use libklvanc.Prelude.{
  ℕ, suc, ◌+◌, ◌-◌, ◌*◌, ◌/◌, ◌%◌, ◌≤◌, ◌≡◌, refl, ap, ◌∙◌, List, [], ◌∷◌, ◌++◌, ok, ◌>>=◌, true,
  false, guard_then, ltb, length, length-append, map, All, arith,
}
use mathlib.Core.List.{append_assoc}
use libklvanc.Bitstream.RoundTrip.{length-fields_bits}
use libklvanc.Codec.Bytes.{length-serialize}
use libklvanc.Scte104.{
  Request, Operation, TimeValue, no_value, time_type_1, time_type_2, time_type_3, Mom,
}
use libklvanc.Scte104.Parser.{Allocs, parse_mom_timestamp, parse_ops, parse_mom}
use libklvanc.Scte104.Fields.{request_fields, request_wire, request_bytes-wire}
use libklvanc.Scte104.Arrival.{IsRequest, request_bytes}
use libklvanc.Scte104.Bodies.{body_small}
use libklvanc.Scte104.Readback.{parse_request_lem, bytes-append, short_joined, long_joined}
use libklvanc.Scte104.Sent.{request_id-lt}
use libklvanc.Scte104.Wire.{
  IsOperation, time_id, IsMessage, op_bytes, ops_bytes, time_bytes, mom_bytes, mom_rest, mom_size,
  time_arrived, operation_arrived, mom_arrived,
}

-- Every allocation of the parser succeeds.
pub record AllGranted (alloc : Allocs) : Type 0 where
  pub packet : alloc.packet_ok ≡ true
  pub fragment : alloc.fragment_ok ≡ true
  pub complete : alloc.complete_ok ≡ true
  pub ops : alloc.ops_ok ≡ true
  pub body : (i : ℕ) → alloc.body_ok i ≡ true
  pub klbs : (i : ℕ) → alloc.klbs_ok i ≡ true

timestamp_read :
    (t : ℕ) (v : TimeValue) (rest : List ℕ)
    → t ≡ time_id v
    → parse_mom_timestamp (t % 256 ∷ (time_bytes v ++ rest))
      ≡ ok (record { time_type = t; value = time_arrived v }, rest)
unfolding parse_mom_timestamp time_id time_bytes time_arrived
timestamp_read t no_value rest e = rw e refl
timestamp_read t (time_type_1 s us) rest e = rw e (simp (long_joined, short_joined))
timestamp_read t (time_type_2 h m s f) rest e = rw e refl
timestamp_read t (time_type_3 n g) rest e = rw e refl

request_bytes-size : (r : Request) → IsRequest r → length (request_bytes r) ≤ 255
unfolding request_wire
request_bytes-size r h = omega (
  arith,
  ap (λ (l : List ℕ). length l) (request_bytes-wire r),
  body_small r h,
  length-serialize (request_fields r),
  length-fields_bits (request_fields r),
)

op_bytes-size : (o : Operation) → length (op_bytes o) ≡ 4 + length (request_bytes o.request)
unfolding op_bytes
op_bytes-size o = omega arith

-- The test for the room that is left passes.
room_left :
    (limit : ℕ) (o : Operation) (rest : List ℕ)
    → 2000 ≤ limit + length rest
    → 4 + length (request_bytes o.request) + length rest ≤ 2000
    → ltb limit (2000 - length (op_bytes o ++ rest) + length (request_bytes o.request)) ≡ false
room_left limit o rest l b = ground (arith, b, l, length-append (op_bytes o) rest, op_bytes-size o)

module _ (alloc : Allocs) (g : AllGranted alloc) where
  op_read :
      (i limit rounds : ℕ) (o : Operation) (rest : List ℕ)
      → IsOperation o
      → 2000 ≤ limit + length rest
      → 4 + length (request_bytes o.request) + length rest ≤ 2000
      → parse_ops alloc (suc rounds) i limit (op_bytes o ++ rest)
        ≡ (parse_ops alloc rounds (i + 1) limit rest >>= λ ops. ok (operation_arrived o ∷ ops))
  unfolding parse_ops op_bytes operation_arrived
  op_read i limit rounds o rest h l b =
      let body : List ℕ = request_bytes o.request in
      let n : ℕ = length body in
      let small = request_bytes-size o.request h.1 in
      let id : o.op_id % 65536 ≡ o.op_id = omega (arith, h.0, request_id-lt o.request) in
      let len : n % 65536 ≡ n = omega arith in
      let room = room_left limit o rest l b in
      rw (short_joined o.op_id, short_joined n, id, len, room, g.body i, g.klbs i)
        (rw (bytes-append body rest n refl) (rw (h.0) (rw (parse_request_lem o.request h.1) refl)))

  pub ops_read :
      (i limit : ℕ) (ops : List Operation) (rest : List ℕ)
      → All IsOperation ops
      → 2000 ≤ limit + length rest
      → length (ops_bytes ops) + length rest ≤ 2000
      → parse_ops alloc (length ops) i limit (ops_bytes ops ++ rest)
        ≡ ok (map operation_arrived ops)
  unfolding ops_bytes
  ops_read i limit [] rest a l b = unfold parse_ops in refl
  ops_read i limit (o ∷ ops) rest a l b =
      let total = length-append (op_bytes o) (ops_bytes ops) in
      let more = length-append (ops_bytes ops) rest in
      let one = op_bytes-size o in
      ap (parse_ops alloc (suc (length ops)) i limit)
        (append_assoc (op_bytes o) (ops_bytes ops) rest)
      ∙ op_read i limit (length ops) o (ops_bytes ops ++ rest) a.0 (omega (arith, more))
          (omega (arith, total, more, one))
      ∙ rw (ops_read (i + 1) limit ops rest a.1 l (omega (arith, total, one))) refl

  mom_read_at :
      (m : Mom) (rest : List ℕ) (n : ℕ)
      → IsMessage m
      → n ≡ mom_size m
      → n + length rest ≡ 2000
      → parse_mom alloc n (mom_bytes n m ++ rest) ≡ ok (record (mom_arrived m) { message_size = n })
  unfolding parse_mom mom_rest mom_arrived
  mom_read_at m rest n h e l =
      let size : n / 256 % 256 * 256 + n % 256 ≡ n = omega arith in
      let long : ltb n 10 ≡ false = ground (arith, e) in
      let whole : ltb n n ≡ false = ground arith in
      let count : m.num_ops % 256 ≡ m.num_ops = omega (arith, h.few) in
      let t =
        timestamp_read m.timestamp.time_type m.timestamp.value
          (m.num_ops % 256 ∷ ops_bytes m.ops ++ rest) h.time in
      let all = length-append (time_bytes m.timestamp.value) (m.num_ops % 256 ∷ ops_bytes m.ops) in
      let ops : parse_ops alloc m.num_ops 0 n (ops_bytes m.ops ++ rest)
          ≡ ok (map operation_arrived m.ops) =
        ap (λ (k : ℕ). parse_ops alloc k 0 n (ops_bytes m.ops ++ rest)) h.count
        ∙ ops_read 0 n m.ops rest h.operations (omega (arith, l)) (omega (arith, e, l, all)) in
      rw (long, size, whole)
        (rw
          (
            append_assoc (time_bytes m.timestamp.value) (m.num_ops % 256 ∷ ops_bytes m.ops) rest,
            t,
            count,
          )
          (guard_then alloc.ops_ok _ _ g.ops ∙ rw ops (rw (short_joined m.dpi_pid_index) refl)))

  pub mom_read :
      (m : Mom) (rest : List ℕ)
      → IsMessage m
      → mom_size m + length rest ≡ 2000
      → parse_mom alloc (mom_size m) (mom_bytes (mom_size m) m ++ rest) ≡ ok (mom_arrived m)
  mom_read m rest h l = mom_read_at m rest (mom_size m) h refl l ∙ unfold mom_arrived in refl
