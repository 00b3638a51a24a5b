-- ===== src/Scte104/Building.antt =====
-- klvanc_SCTE_104_Add_MOM_Op, called once for each operation of a message.
use libklvanc.Prelude.{
  ℕ, suc, ◌+◌, ◌-◌, ◌%◌, ◌<◌, ◌≡◌, refl, sym, ◌∙◌, List, [], ◌∷◌, ◌++◌, Outcome, ok, fault, ◌>>=◌,
  true, false, ◌==◌, length, length-append, map, take_all, arith,
}
use mathlib.Core.List.{append_assoc, append-nil}
use libklvanc.Scte104.{
  Operation, no_operation, Scte104Packet, klvanc_alloc_scte_104, klvanc_scte_104_add_mom_op,
}

zero_plus : (n : ℕ) → 0 + n ≡ n
zero_plus n = omega arith

-- The calls, one after the other.
unfoldable pub add_all : List ℕ → Scte104Packet → Outcome Scte104Packet
add_all [] pkt = ok pkt
add_all (op_id ∷ op_ids) pkt =
    klvanc_scte_104_add_mom_op true op_id pkt >>= (λ pkt'. add_all op_ids pkt')

abbrev pub added : ℕ → Operation
added op_id = record no_operation { op_id = op_id }

-- The packet with more operations.
abbrev pub with_ops : Scte104Packet → ℕ → List Operation → Scte104Packet
with_ops pkt num_ops ops = record pkt {
  mo_msg = record pkt.mo_msg { num_ops = num_ops; ops = ops };
}

add_one :
    (op_id : ℕ) (pkt : Scte104Packet)
    → pkt.mo_msg.num_ops ≡ length pkt.mo_msg.ops
    → pkt.mo_msg.num_ops < 255
    → klvanc_scte_104_add_mom_op true op_id pkt
      ≡ ok (with_ops pkt (pkt.mo_msg.num_ops + 1) (pkt.mo_msg.ops ++ added op_id ∷ []))
unfolding klvanc_scte_104_add_mom_op
add_one op_id pkt e h =
    let n : ℕ = pkt.mo_msg.num_ops in
    let a : (n + 1) % 256 ≡ n + 1 = omega arith in
    let b : (n + 1 == 0) ≡ false = ground arith in
    let c : n + 1 - 1 ≡ n = omega arith in rw (a, b, c, take_all n pkt.mo_msg.ops (sym e)) refl

-- A count of 255 comes back to 0, and the entry in front of the array is cleared.
add_overflow :
    (op_id : ℕ) (pkt : Scte104Packet)
    → pkt.mo_msg.num_ops ≡ 255
    → klvanc_scte_104_add_mom_op true op_id pkt ≡ fault
unfolding klvanc_scte_104_add_mom_op
add_overflow op_id pkt e = rw e refl

added_to :
    (op_ids : List ℕ) (pkt : Scte104Packet)
    → pkt.mo_msg.num_ops ≡ length pkt.mo_msg.ops
    → pkt.mo_msg.num_ops + length op_ids < 256
    → add_all op_ids pkt
      ≡ ok (with_ops pkt (pkt.mo_msg.num_ops + length op_ids) (pkt.mo_msg.ops ++ map added op_ids))
unfolding add_all
added_to [] pkt e h =
    let c : pkt.mo_msg.num_ops + 0 ≡ pkt.mo_msg.num_ops = omega arith in
    rw (c, append-nil pkt.mo_msg.ops) refl
added_to (op_id ∷ op_ids) pkt e h =
    let mom = pkt.mo_msg in
    let one : List Operation = added op_id ∷ [] in
    let c : mom.num_ops + 1 + length op_ids ≡ mom.num_ops + suc (length op_ids) = omega arith in
    rw (add_one op_id pkt e (omega arith)) (
      added_to op_ids (with_ops pkt (mom.num_ops + 1) (mom.ops ++ one))
        (omega (arith, e, length-append mom.ops one)) (omega arith)
      ∙ rw (c, append_assoc mom.ops one (map added op_ids)) refl)

-- A packet of multiple operations that klvanc_alloc_SCTE_104 made gets, by at most 255 calls of
-- klvanc_SCTE_104_Add_MOM_Op that find memory, one cleared operation for each call, in order and
-- under its identifier, and the count is their number; a call at a count of 255 writes in front of the array.
pub add_all-alloc :
    (op_ids : List ℕ) (op_id : ℕ) (pkt : Scte104Packet)
    → length op_ids < 256
    → pkt.mo_msg.num_ops ≡ 255
    → ((klvanc_alloc_scte_104 true 0xffff >>= add_all op_ids) ≡ (
        klvanc_alloc_scte_104 true 0xffff >>= λ new.
        ok (with_ops new (length op_ids) (map added op_ids))))
      × (klvanc_scte_104_add_mom_op true op_id pkt ≡ fault)
unfolding klvanc_alloc_scte_104
add_all-alloc op_ids op_id pkt h full = (
  added_to op_ids _ refl (omega arith) ∙ rw (zero_plus (length op_ids)) refl,
  add_overflow op_id pkt full,
)
