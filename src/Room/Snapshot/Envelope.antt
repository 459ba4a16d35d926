-- ===== src/Room/Snapshot/Envelope.antt =====
-- The envelope of a saved snapshot: `encode_snapshot`, `decode_snapshot` and `sanitize` of
-- crates/colyseus/src/snapshot.rs. A byte is a number below 256.
use colyseus_rs.Base.{
  ℕ, ◌+◌, ◌*◌, ◌/◌, ◌%◌, Bool, true, false, not, ◌&&◌, ◌||◌, Option, none, some, Text, List, [],
  ◌∷◌, ◌++◌, text, ◌==◌, nat_eq, text_eq, if◌then◌else◌, ltb, length, take, drop, map, ◌<◌, ◌≤◌,
  ◌≡◌, refl, arith, nat-reflexive, nat_sound, text_sound,
}
use colyseus_rs.Base.Result.{Result, ok, err}
use colyseus_rs.Base.Decimal.{to_string}
use colyseus_rs.Room.{RoomSnapshot}

-- `crc32fast::hash`, and `rmp_serde` on snapshots.
pub record Codec (N : Type 0) : Type 0 where
  pub crc32 : List ℕ → ℕ
  pub to_vec : RoomSnapshot N → List ℕ
  pub from_slice : List ℕ → Result Text (RoomSnapshot N)

pub data EnvelopeError : Type 0 where
  too_short bad_magic checksum_mismatch : EnvelopeError
  unsupported_version : ℕ → EnvelopeError
  bad_payload : Text → EnvelopeError

abbrev pub message_of : EnvelopeError → Text
message_of too_short = text "snapshot too short"
message_of bad_magic = text "bad snapshot magic"
message_of checksum_mismatch = text "snapshot checksum mismatch"
message_of (unsupported_version v) = text "unsupported snapshot envelope version " ++ to_string v
message_of (bad_payload reason) = reason

abbrev pub envelope_version : ℕ
envelope_version = 1

-- `u32::to_be_bytes`
unfoldable pub to_be_bytes : ℕ → List ℕ
to_be_bytes n = (n / 16777216 % 256) ∷ (n / 65536 % 256) ∷ (n / 256 % 256) ∷ (n % 256) ∷ []

unfoldable pub from_be_bytes : ℕ → ℕ → ℕ → ℕ → ℕ
from_be_bytes a b c d = ((a * 256 + b) * 256 + c) * 256 + d

module _ {N : Type 0} (codec : Codec N) where
  payload_error : Result Text (RoomSnapshot N) → Result EnvelopeError (RoomSnapshot N)
  payload_error (ok s) = ok s
  payload_error (err m) = err (bad_payload m)

  unfoldable pub encode_snapshot : RoomSnapshot N → List ℕ
  encode_snapshot s =
      let payload = codec.to_vec s in
      text "CLRS" ++ to_be_bytes envelope_version ++ to_be_bytes (codec.crc32 payload) ++ payload

  -- The tests on the parts of an envelope that is long enough.
  unfoldable pub open_envelope : List ℕ → ℕ → ℕ → List ℕ → Result EnvelopeError (RoomSnapshot N)
  unfolding payload_error
  open_envelope magic version expected payload =
      if not (magic == text "CLRS")
      then err bad_magic
      else (if ltb envelope_version version
          then err (unsupported_version version)
          else (if codec.crc32 payload == expected
              then payload_error (codec.from_slice payload)
              else err checksum_mismatch))

  unfoldable pub decode_snapshot : List ℕ → Result EnvelopeError (RoomSnapshot N)
  decode_snapshot (a ∷ b ∷ c ∷ d ∷ v3 ∷ v2 ∷ v1 ∷ v0 ∷ c3 ∷ c2 ∷ c1 ∷ c0 ∷ payload) =
      open_envelope (a ∷ b ∷ c ∷ d ∷ []) (from_be_bytes v3 v2 v1 v0) (from_be_bytes c3 c2 c1 c0)
        payload
  decode_snapshot _ = err too_short

-- `sanitize`: the room id as a file name.
unfoldable pub is_plain : ℕ → Bool
is_plain c =
    ltb 47 c && ltb c 58 || ltb 64 c && ltb c 91 || ltb 96 c && ltb c 123 || c == 45 || c == 95

unfoldable pub sanitize : Text → Text
sanitize id = map (λ c. if is_plain c then c else 95) id

-- The name of the file of a room.
unfoldable pub file_path : Text → Text
file_path id = sanitize id ++ text ".snap"

not-false : (b : Bool) → not b ≡ false → b ≡ true
not-false true h = refl
not-false false h = cc h

-- The tests that a result without error has passed.
not_taken :
    {E A : Type 0} (t : Bool) (x : E) (r : Result E A) {a : A}
    → (if t then err x else r) ≡ ok a
    → (t ≡ false) × (r ≡ ok a)
not_taken true x r h = cc h
not_taken false x r h = (refl, h)

taken :
    {E A : Type 0} (t : Bool) (r : Result E A) (x : E) {a : A}
    → (if t then r else err x) ≡ ok a
    → (t ≡ true) × (r ≡ ok a)
taken true r x h = (refl, h)
taken false r x h = cc h

-- A number of 32 bits is read back from its bytes.
from_be_bytes-to_be_bytes :
    (n : ℕ)
    → n < 4294967296
    → from_be_bytes (n / 16777216 % 256) (n / 65536 % 256) (n / 256 % 256) (n % 256) ≡ n
unfolding from_be_bytes
from_be_bytes-to_be_bytes n small = omega (arith, small)

module _ {N : Type 0} (codec : Codec N) where
  -- What a snapshot was saved as is read back as the snapshot, if the packing of snapshots is read back and
  -- the checksum fits its 32 bits.
  pub decode_snapshot-encode_snapshot :
      (s : RoomSnapshot N)
      → codec.from_slice (codec.to_vec s) ≡ ok s
      → codec.crc32 (codec.to_vec s) < 4294967296
      → decode_snapshot codec (encode_snapshot codec s) ≡ ok s
  unfolding decode_snapshot encode_snapshot open_envelope to_be_bytes colyseus_rs.Base.text_eqb
      from_be_bytes
  decode_snapshot-encode_snapshot s packed small =
      rw
        (
          from_be_bytes-to_be_bytes (codec.crc32 (codec.to_vec s)) small,
          nat-reflexive (codec.crc32 (codec.to_vec s)),
          packed,
        )
        refl

  payload_error-ok :
      (r : Result Text (RoomSnapshot N)) {s : RoomSnapshot N}
      → payload_error codec r ≡ ok s
      → r ≡ ok s
  unfolding payload_error
  payload_error-ok (ok s) h = cc h
  payload_error-ok (err m) h = cc h

  -- An envelope that is accepted had the magic, a version that is known and the checksum of its payload.
  pub open_envelope_sound :
      (magic : List ℕ) (version expected : ℕ) (payload : List ℕ) (s : RoomSnapshot N)
      → open_envelope codec magic version expected payload ≡ ok s
      → (magic ≡ text "CLRS")
        × (version ≤ envelope_version)
        × (codec.crc32 payload ≡ expected)
        × (codec.from_slice payload ≡ ok s)
  unfolding open_envelope payload_error
  open_envelope_sound magic version expected payload s h =
      let (known, h1) = not_taken (not (magic == text "CLRS")) _ _ h in
      let (old_enough, h2) = not_taken (ltb envelope_version version) _ _ h1 in
      let (same, h3) = taken (codec.crc32 payload == expected) _ _ h2 in
      (
        text_sound magic (text "CLRS") (not-false (magic == text "CLRS") known),
        ground (arith, old_enough),
        nat_sound (codec.crc32 payload) expected same,
        payload_error-ok (codec.from_slice payload) h3,
      )
