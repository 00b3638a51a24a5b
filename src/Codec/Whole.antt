-- ===== src/Codec/Whole.antt =====
-- Runs of fields that are whole bytes, put together.
use libklvanc.Prelude.{
  ℕ, ◌*◌, ◌/◌, ◌%◌, ◌≡◌, refl, sym, ap, ◌∙◌, List, [], ◌∷◌, ◌++◌, map, length, length-append, All,
  arith,
}
use mathlib.Core.List.{append_assoc, append-nil}
use libklvanc.Bitstream.Reads.{total, widths, total-append}
use libklvanc.Bitstream.Store.{IsByte}
use libklvanc.Codec.Serialize.{serialize, serialize-nil, serialize-byte, serialize-word}
use libklvanc.Codec.Wide.{serialize-long}

-- The fields write the bytes, whatever follows.
pub record Writes (fields : List (ℕ × ℕ)) (bytes : List ℕ) : Type 0 where
  pub written : (more : List (ℕ × ℕ)) → serialize (fields ++ more) ≡ bytes ++ serialize more
  pub size : total (widths fields) ≡ 8 * length bytes

pub Writes-nil : Writes [] []
Writes-nil = record { written = λ more. refl; size = refl }

pub Writes-serialize :
    {fields : List (ℕ × ℕ)} {bytes : List ℕ} → Writes fields bytes → serialize fields ≡ bytes
Writes-serialize {fields} {bytes} w =
    ap serialize (sym (append-nil fields))
    ∙ w.written []
    ∙ ap (λ (l : List ℕ). bytes ++ l) serialize-nil
    ∙ append-nil bytes

pub Writes-append :
    {xs ys : List (ℕ × ℕ)} {front back : List ℕ}
    → Writes xs front
    → Writes ys back
    → Writes (xs ++ ys) (front ++ back)
Writes-append {xs} {ys} {front} {back} a b = record {
  written = λ more.
      ap serialize (append_assoc xs ys more)
      ∙ a.written (ys ++ more)
      ∙ ap (λ (l : List ℕ). front ++ l) (b.written more)
      ∙ sym (append_assoc front back (serialize more));
  size = omega (arith, total-append xs ys, length-append front back, a.size, b.size);
}

module _ {fields : List (ℕ × ℕ)} {bytes : List ℕ} (w : Writes fields bytes) where
  pub Writes-byte : (v : ℕ) → Writes ((v, 8) ∷ fields) (v % 256 ∷ bytes)
  Writes-byte v = record {
    written = λ more. rw (serialize-byte (fields ++ more) v, w.written more);
    size = omega (arith, w.size);
  }

  pub Writes-word : (v : ℕ) → Writes ((v, 16) ∷ fields) (v / 256 % 256 ∷ v % 256 ∷ bytes)
  Writes-word v = record {
    written = λ more. rw (serialize-word (fields ++ more) v, w.written more);
    size = omega (arith, w.size);
  }

  pub Writes-long :
      (v : ℕ)
      → Writes
          ((v, 32) ∷ fields)
          (v / 65536 / 256 % 256 ∷ v / 65536 % 256 ∷ v / 256 % 256 ∷ v % 256 ∷ bytes)
  Writes-long v = record {
    written = λ more. rw (serialize-long (fields ++ more) v, w.written more);
    size = omega (arith, w.size);
  }

-- Bytes, one by one.
pub Writes-bytes : (bytes : List ℕ) → All IsByte bytes → Writes (map (λ v. (v, 8)) bytes) bytes
Writes-bytes [] a = Writes-nil
Writes-bytes (b ∷ bytes) a =
    let e : b % 256 ≡ b = omega (arith, a.0) in
    let w : Writes (map (λ v. (v, 8)) (b ∷ bytes)) (b % 256 ∷ bytes) =
      Writes-byte (Writes-bytes bytes a.1) b in
    rw e at w
