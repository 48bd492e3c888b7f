-- ===== src/Tests/Encoder.antt =====
-- An encoder for the tests: a stream is its buffer and the number of bytes written, and a reading
-- takes four bytes after its tag.
use docker_applications.Common.{
  ℕ, ◌+◌, ◌≤◌, ◌<◌, ◌≡◌, refl, ◌%◌, Bool, true, false, List, [], ◌∷◌, length, leb, if◌then◌else◌,
  arith, le→leb,
}
use docker_applications.Common.Memory.{splice}
use docker_applications.Sensor.{SensorReading, Nanopb}
use docker_applications.Sensor.Stream.{Encodes}

pub record Output : Type 0 where
  pub buffer : List ℕ
  pub bytes_written : ℕ

gt→leb : (a b : ℕ) → b < a → leb a b ≡ false
gt→leb a b h = ground arith

abbrev pub append : List ℕ → Output → Bool × Output
append bs s =
    if leb (s.bytes_written + length bs) (length s.buffer)
    then (
      true,
      record {
        buffer = splice s.bytes_written bs s.buffer;
        bytes_written = s.bytes_written + length bs;
      },
    )
    else (false, s)

abbrev pub submessage : SensorReading → List ℕ
submessage r = 3 ∷ r.id % 256 ∷ (if r.has_error then 1 else 0) ∷ r.value1 % 256 ∷ []

abbrev pub four_bytes : Nanopb
four_bytes = record {
  Stream = Output;
  from_buffer = λ b. record { buffer = b; bytes_written = 0 };
  buffer = λ s. s.buffer;
  bytes_written = λ s. s.bytes_written;
  encode = λ callback s. callback s;
  encode_tag_for_field = append (10 ∷ []);
  encode_submessage = λ r. append (submessage r);
}

pub append_fits :
    (bs : List ℕ) (s : Output)
    → s.bytes_written + length bs ≤ length s.buffer
    → ((append bs s).0 ≡ true)
      × ((append bs s).1.buffer ≡ splice s.bytes_written bs s.buffer)
      × ((append bs s).1.bytes_written ≡ s.bytes_written + length bs)
append_fits bs s h =
    rw (le→leb (s.bytes_written + length bs) (length s.buffer) h) (refl, refl, refl)

pub append_full :
    (bs : List ℕ) (s : Output)
    → length s.buffer < s.bytes_written + length bs
    → (append bs s).0 ≡ false
append_full bs s h = rw (gt→leb (s.bytes_written + length bs) (length s.buffer) h) refl

abbrev pub encodes : Encodes four_bytes
encodes = record {
  tag = 10 ∷ [];
  message = submessage;
  starts = λ b. (refl, refl);
  calls = λ callback s. (refl, refl, refl);
  tag_fits = append_fits (10 ∷ []);
  message_fits = λ r. append_fits (submessage r);
  tag_full = append_full (10 ∷ []);
  message_full = λ r. append_full (submessage r);
}
