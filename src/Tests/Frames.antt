-- ===== src/Tests/Frames.antt =====
-- A frame in a simple encoding of numbers.
use xraytool_go.Prelude.{ℕ, zero, suc, ◌≡◌, refl, List, [], ◌∷◌, ◌++◌, length, ◌≤◌, arith}
use xraytool_go.Prelude.Int.{ℤ, pos, negsuc, IsInt64}
use xraytool_go.Replication.Frame.{Frame, Varints, marshal, refused, trailing, unmarshal}
use xraytool_go.Replication.Frame.RoundTrip.{ReadsBack, unmarshal-marshal}

-- A sign and a size, each in one byte of any size.
abbrev written : ℤ → List ℕ
written (pos n) = 0 ∷ n ∷ []
written (negsuc n) = 1 ∷ n ∷ []

abbrev signed : ℕ → ℕ → ℤ
signed zero n = pos n
signed (suc _) n = negsuc n

abbrev read_signed : List ℕ → ℤ × ℤ
read_signed [] = (pos 0, pos 0)
read_signed (_ ∷ []) = (pos 0, pos 0)
read_signed (s ∷ n ∷ _) = (signed s n, pos 2)

abbrev read_unsigned : List ℕ → ℕ × ℤ
read_unsigned [] = (0, pos 0)
read_unsigned (n ∷ _) = (n, pos 1)

abbrev plain : Varints
plain = record {
  append_varint = written;
  append_uvarint = λ n. n ∷ [];
  varint = read_signed;
  uvarint = read_unsigned;
}

plain-ReadsBack : ReadsBack plain
plain-ReadsBack = record {
  varint_back = back;
  uvarint_back = λ n rest h. refl;
  varint_some = some;
  uvarint_some = λ n. omega arith;
}
  where
    back :
        (n : ℤ) (rest : List ℕ)
        → IsInt64 n
        → read_signed (written n ++ rest) ≡ (n, pos (length (written n)))
    back (pos n) rest h = refl
    back (negsuc n) rest h = refl

    some : (n : ℤ) → 1 ≤ length (written n)
    some (pos n) = omega arith
    some (negsuc n) = omega arith

abbrev event : Frame
event = record { kind = 2; revision = pos 17; payload = 104 ∷ 105 ∷ [] }

unmarshal-marshal_example : unmarshal plain (marshal plain event ++ 0 ∷ []) ≡ refused trailing
unmarshal-marshal_example =
    unmarshal-marshal plain plain-ReadsBack event (0 ∷ [])
      (record { above = omega arith; below = omega arith }) (omega arith)
