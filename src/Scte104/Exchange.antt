-- ===== src/Scte104/Exchange.antt =====
-- A request that `gen_*` wrote is read by the parser of the same identifier.
use libklvanc.Prelude.{◌≡◌, ok, ◌>>=◌, deref, true}
use libklvanc.Codec.{Alloc}
use libklvanc.Codec.Laws.{Grants}
use libklvanc.Payload.{copy_bytes}
use libklvanc.Payload.Laws.{copy_bytes-all}
use libklvanc.Scte104.{Request}
use libklvanc.Scte104.Builder.{gen_request}
use libklvanc.Scte104.Parser.{parse_request}
use libklvanc.Scte104.Arrival.{request_id, IsRequest, request_bytes, request_arrived}
use libklvanc.Scte104.Bodies.{gen_request_lem}
use libklvanc.Scte104.Readback.{parse_request_lem}

-- If the allocator grants the buffer of 255 bytes, then for each of the nine requests that stays in its
-- arrays and in the buffer, and for the null request, the bytes that the function of its identifier
-- writes are read back by the parser of that identifier as the same request, each member cut to its width
-- and each array to its count.
pub parse_request-gen_request :
    (alloc : Alloc) (r : Request)
    → Grants 255 alloc
    → IsRequest r
    → (do
      made ← gen_request alloc (request_id r) r
      (buf, size) ← deref made
      body ← copy_bytes buf size
      parse_request true (request_id r) size body)
      ≡ ok (request_arrived r)
parse_request-gen_request alloc r g h =
    let (rest, e) = gen_request_lem alloc r g h in
    rw e (rw (copy_bytes-all (request_bytes r) rest) (parse_request_lem r h))
