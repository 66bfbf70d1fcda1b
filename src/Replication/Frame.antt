-- ===== src/Replication/Frame.antt =====
-- internal/plugins/cluster_replication/protocol/protocol.go: Marshal and Unmarshal.
pub mod RoundTrip
use xraytool_go.Prelude.{
  ℕ, zero, suc, Bool, true, false, not, List, [], ◌∷◌, ◌++◌, length, ltb, ◌==◌, if◌then◌else◌,
}
use xraytool_go.Prelude.Int.{ℤ, pos, negsuc, leb_ℤ}

-- Varint encoding of encoding/binary: the bytes that are appended, and the value that is read with
-- the number of bytes it takes, which is 0 or less when nothing can be read.
pub record Varints : Type 0 where
  pub append_varint : ℤ → List ℕ
  pub append_uvarint : ℕ → List ℕ
  pub varint : List ℕ → ℤ × ℤ
  pub uvarint : List ℕ → ℕ × ℤ

abbrev pub version : ℕ
version = 1

-- A kind is its byte: an unknown one is read like a known one.
pub record Frame : Type 0 where
  pub kind : ℕ
  pub revision : ℤ
  pub payload : List ℕ

pub data FrameError : Type 0 where
  too_short unsupported_version invalid_revision invalid_length truncated trailing : FrameError

pub data FrameResult : Type 0 where
  frame : Frame → FrameResult
  refused : FrameError → FrameResult

unfoldable pub marshal : Varints → Frame → List ℕ
marshal v f =
    version
    ∷ f.kind
    ∷ (v.append_varint f.revision ++ (v.append_uvarint (length f.payload) ++ f.payload))

-- `raw[n:]`
abbrev pub drop : ℕ → List ℕ → List ℕ
drop zero bs = bs
drop (suc n) [] = []
drop (suc n) (b ∷ bs) = drop n bs

abbrev pub count : ℤ → ℕ
count (pos n) = n
count (negsuc n) = 0

abbrev pub with_payload : ℕ → ℤ → ℕ → List ℕ → FrameResult
with_payload kind revision size rest =
    if ltb (length rest) size
    then refused truncated
    else (if not (size == length rest)
        then refused trailing
        else frame (record { kind = kind; revision = revision; payload = rest }))

abbrev pub with_length : ℕ → ℤ → ℕ × ℤ → List ℕ → FrameResult
with_length kind revision (size, n) rest =
    if leb_ℤ n (pos 0)
    then refused invalid_length
    else with_payload kind revision size (drop (count n) rest)

abbrev pub with_revision : Varints → ℕ → ℤ × ℤ → List ℕ → FrameResult
with_revision v kind (revision, n) rest =
    if leb_ℤ n (pos 0)
    then refused invalid_revision
    else (let after = drop (count n) rest in with_length kind revision (v.uvarint after) after)

unfoldable pub unmarshal : Varints → List ℕ → FrameResult
unmarshal v [] = refused too_short
unmarshal v (_ ∷ []) = refused too_short
unmarshal v (ver ∷ kind ∷ rest) =
    if not (ver == version)
    then refused unsupported_version
    else with_revision v kind (v.varint rest) rest
