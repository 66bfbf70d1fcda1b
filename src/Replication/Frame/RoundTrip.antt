-- ===== src/Replication/Frame/RoundTrip.antt =====
-- The frames of protocol.go, written and read back.
use xraytool_go.Prelude.{
  ℕ, ◌<◌, ◌≤◌, ◌^◌, false, ◌≡◌, refl, ap, List, [], ◌∷◌, ◌++◌, length, arith, length-append, ◌∙◌,
}
use xraytool_go.Prelude.Int.{ℤ, pos, IsInt64, leb_ℤ}
use xraytool_go.Replication.Frame.{
  Varints, Frame, FrameResult, frame, refused, trailing, marshal, unmarshal, drop, with_length,
  with_payload, with_revision,
}

-- What encoding/binary documents: a value that was appended is read back, with its bytes counted,
-- whatever follows it.
pub record ReadsBack (v : Varints) : Type 0 where
  pub varint_back :
      (n : ℤ) (rest : List ℕ)
      → IsInt64 n
      → v.varint (v.append_varint n ++ rest) ≡ (n, pos (length (v.append_varint n)))
  pub uvarint_back :
      (n : ℕ) (rest : List ℕ)
      → n < 2 ^ 64
      → v.uvarint (v.append_uvarint n ++ rest) ≡ (n, pos (length (v.append_uvarint n)))
  pub varint_some : (n : ℤ) → 1 ≤ length (v.append_varint n)
  pub uvarint_some : (n : ℕ) → 1 ≤ length (v.append_uvarint n)

drop-append : (xs ys : List ℕ) → drop (length xs) (xs ++ ys) ≡ ys
drop-append [] ys = refl
drop-append (x ∷ xs) ys = drop-append xs ys

append_assoc : (xs ys zs : List ℕ) → (xs ++ ys) ++ zs ≡ xs ++ (ys ++ zs)
append_assoc [] ys zs = refl
append_assoc (x ∷ xs) ys zs = ap (λ l. x ∷ l) (append_assoc xs ys zs)

append_nil : (xs : List ℕ) → xs ++ [] ≡ xs
append_nil [] = refl
append_nil (x ∷ xs) = ap (λ l. x ∷ l) (append_nil xs)

some_read : (n : ℕ) → 1 ≤ n → leb_ℤ (pos n) (pos 0) ≡ false
some_read n h = ground arith

-- What a reader makes of the payload and the bytes that follow the frame.
abbrev pub read_payload : Frame → List ℕ → FrameResult
read_payload f [] = frame f
read_payload f (_ ∷ _) = refused trailing

payload_read :
    (f : Frame) (extra : List ℕ)
    → with_payload f.kind f.revision (length f.payload) (f.payload ++ extra) ≡ read_payload f extra
payload_read f [] = rw append_nil (ground arith)
payload_read f (b ∷ bs) = ground (arith, length-append f.payload (b ∷ bs))

module _ (v : Varints) (laws : ReadsBack v) where
  length_read :
      (f : Frame) (rest : List ℕ)
      → length f.payload < 2 ^ 64
      → let bytes = v.append_uvarint (length f.payload) ++ rest in
        with_length f.kind f.revision (v.uvarint bytes) bytes
        ≡ with_payload f.kind f.revision (length f.payload) rest
  length_read f rest h =
      let size = v.append_uvarint (length f.payload) in
      rw (laws.uvarint_back (length f.payload) rest h) (
        rw (some_read (length size) (laws.uvarint_some (length f.payload)))
          (rw (drop-append size rest) refl))

  revision_read :
      (f : Frame) (rest : List ℕ)
      → IsInt64 f.revision
      → let bytes = v.append_varint f.revision ++ rest in
        with_revision v f.kind (v.varint bytes) bytes
        ≡ with_length f.kind f.revision (v.uvarint rest) rest
  revision_read f rest r =
      let revision = v.append_varint f.revision in
      rw (laws.varint_back f.revision rest r) (
        rw (some_read (length revision) (laws.varint_some f.revision))
          (rw (drop-append revision rest) refl))

  -- A frame whose revision is an int64, with a payload of fewer than 2^64 bytes, is read back from
  -- its bytes, and is refused for trailing bytes when anything follows them.
  pub unmarshal-marshal :
      (f : Frame) (extra : List ℕ)
      → IsInt64 f.revision
      → length f.payload < 2 ^ 64
      → unmarshal v (marshal v f ++ extra) ≡ read_payload f extra
  unfolding unmarshal marshal
  unmarshal-marshal f extra r h =
      let size = v.append_uvarint (length f.payload) in
      rw (append_assoc (v.append_varint f.revision) (size ++ f.payload) extra) (
        rw (append_assoc size f.payload extra) (
          revision_read f (size ++ (f.payload ++ extra)) r
          ∙ length_read f (f.payload ++ extra) h
          ∙ payload_read f extra))
