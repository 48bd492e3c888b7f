-- ===== src/Sensor/Stream.antt =====
-- What is on a stream once readings have been put on it, if the encoder does what its
-- documentation says.
use docker_applications.Common.{
  ℕ, ◌+◌, ◌≤◌, ◌<◌, ◌≡◌, refl, ap, ap₂, ◌∙◌, Bool, true, false, List, [], ◌∷◌, ◌++◌, length,
  length-append, arith,
}
use mathlib.Core.List.{append_assoc}
use native.Mathlib.Decide.{dec_lt}
use docker_applications.Common.Memory.{splice, length-splice}
use docker_applications.Sensor.{SensorReading, Nanopb, write_reading}

module _ (pb : Nanopb) where
  open pb use {
    Stream, from_buffer, buffer, bytes_written, encode, encode_tag_for_field, encode_submessage,
  }

  -- `pb_encode` calls the callback and returns what it returns. `pb_encode_tag_for_field` and
  -- `pb_encode_submessage` append the bytes of the tag, and of the message after its length, if
  -- they fit the buffer, and fail if they do not.
  pub record Encodes : Type 0 where
    pub tag : List ℕ
    pub message : SensorReading → List ℕ
    pub starts : (b : List ℕ) → (buffer (from_buffer b) ≡ b) × (bytes_written (from_buffer b) ≡ 0)
    pub calls :
        (callback : Stream → Bool × Stream) (s : Stream)
        → ((encode callback s).0 ≡ (callback s).0)
          × (buffer (encode callback s).1 ≡ buffer (callback s).1)
          × (bytes_written (encode callback s).1 ≡ bytes_written (callback s).1)
    pub tag_fits :
        (s : Stream)
        → bytes_written s + length tag ≤ length (buffer s)
        → ((encode_tag_for_field s).0 ≡ true)
          × (buffer (encode_tag_for_field s).1 ≡ splice (bytes_written s) tag (buffer s))
          × (bytes_written (encode_tag_for_field s).1 ≡ bytes_written s + length tag)
    pub message_fits :
        (r : SensorReading) (s : Stream)
        → bytes_written s + length (message r) ≤ length (buffer s)
        → ((encode_submessage r s).0 ≡ true)
          × (buffer (encode_submessage r s).1 ≡ splice (bytes_written s) (message r) (buffer s))
          × (bytes_written (encode_submessage r s).1 ≡ bytes_written s + length (message r))
    pub tag_full :
        (s : Stream)
        → length (buffer s) < bytes_written s + length tag
        → (encode_tag_for_field s).0 ≡ false
    pub message_full :
        (r : SensorReading) (s : Stream)
        → length (buffer s) < bytes_written s + length (message r)
        → (encode_submessage r s).0 ≡ false

module _ {ℓ} {A : Type ℓ} where
  -- Writing behind what was written at the start.
  splice-splice :
      (bs cs xs : List A) → splice (length bs) cs (splice 0 bs xs) ≡ splice 0 (bs ++ cs) xs
  splice-splice [] cs xs = refl
  splice-splice (b ∷ bs) cs [] = refl
  splice-splice (b ∷ bs) cs (x ∷ xs) = ap (λ t. b ∷ t) (splice-splice bs cs xs)

module _ (pb : Nanopb) (enc : Encodes pb) where
  open pb use {
    Stream, from_buffer, buffer, bytes_written, encode, encode_tag_for_field, encode_submessage,
  }
  open enc use {tag, message}

  -- The bytes of one reading on the wire.
  abbrev pub reading_bytes : SensorReading → List ℕ
  reading_bytes r = tag ++ message r

  -- The stream over `b` holds `bs`.
  pub record Holds (b bs : List ℕ) (s : Stream) : Type 0 where
    pub content : buffer s ≡ splice 0 bs b
    pub position : bytes_written s ≡ length bs
    pub inside : length bs ≤ length b

  pub Holds-from_buffer : (b : List ℕ) → Holds b [] (from_buffer b)
  Holds-from_buffer b = record {
    content = (enc.starts b).0;
    position = (enc.starts b).1;
    inside = omega arith;
  }

  -- Writing `cs` behind it, as one of the encoder's functions does.
  extends :
      (b bs cs : List ℕ) (s s' : Stream)
      → Holds b bs s
      → length bs + length cs ≤ length b
      → buffer s' ≡ splice (bytes_written s) cs (buffer s)
      → bytes_written s' ≡ bytes_written s + length cs
      → Holds b (bs ++ cs) s'
  extends b bs cs s s' h room written counted = record {
    content = written ∙ ap₂ (λ n xs. splice n cs xs) h.position h.content ∙ splice-splice bs cs b;
    position = omega (arith, h.position, length-append bs cs);
    inside = omega (arith, length-append bs cs);
  }

  room_left :
      (b bs cs : List ℕ) (s : Stream)
      → Holds b bs s
      → length bs + length cs ≤ length b
      → bytes_written s + length cs ≤ length (buffer s)
  room_left b bs cs s h room = omega (arith, h.position, ap length h.content, length-splice 0 bs b)

  -- A reading that fits is written behind what the stream holds, and the callback succeeds.
  pub write_reading-Holds :
      (b bs : List ℕ) (r : SensorReading) (s : Stream)
      → Holds b bs s
      → length bs + length (reading_bytes r) ≤ length b
      → ((write_reading pb r s).0 ≡ true) × Holds b (bs ++ reading_bytes r) (write_reading pb r s).1
  unfolding write_reading
  write_reading-Holds b bs r s h room =
      let sizes = length-append tag (message r) in
      let tagged = enc.tag_fits s (room_left b bs tag s h (omega arith)) in
      let s1 : Stream = (encode_tag_for_field s).1 in
      let h1 : Holds b (bs ++ tag) s1 = extends b bs tag s s1 h (omega arith) tagged.1 tagged.2 in
      let longer = length-append bs tag in
      let msg = enc.message_fits r s1 (room_left b (bs ++ tag) (message r) s1 h1 (omega arith)) in
      let s2 : Stream = (encode_submessage r s1).1 in
      let h2 : Holds b ((bs ++ tag) ++ message r) s2 =
        extends b (bs ++ tag) (message r) s1 s2 h1 (omega arith) msg.1 msg.2 in
      rw (tagged.0, msg.0) (refl, rw (← append_assoc bs tag (message r)) h2)

  -- So does `pb_encode` with that callback.
  pub encode-Holds :
      (b bs : List ℕ) (r : SensorReading) (s : Stream)
      → Holds b bs s
      → length bs + length (reading_bytes r) ≤ length b
      → ((encode (write_reading pb r) s).0 ≡ true)
        × Holds b (bs ++ reading_bytes r) (encode (write_reading pb r) s).1
  encode-Holds b bs r s h room =
      let (same, content, position) = enc.calls (write_reading pb r) s in
      let (wrote, held) = write_reading-Holds b bs r s h room in
      (
        same ∙ wrote,
        record {
          content = content ∙ held.content;
          position = position ∙ held.position;
          inside = held.inside;
        },
      )

  -- A reading that does not fit makes the callback and `pb_encode` fail.
  pub encode_full :
      (b bs : List ℕ) (r : SensorReading) (s : Stream)
      → Holds b bs s
      → length b < length bs + length (reading_bytes r)
      → (encode (write_reading pb r) s).0 ≡ false
  unfolding write_reading
  encode_full b bs r s h no_room =
      let whole : length (buffer s) ≡ length b =
        omega (arith, ap length h.content, length-splice 0 bs b) in
      let sizes = length-append tag (message r) in
      (enc.calls (write_reading pb r) s).0 ∙ elim (dec_lt (length b) (length bs + length tag)) [
        | yes over ↦ rw (enc.tag_full s (omega (arith, h.position))) refl
        | no fits ↦
            let tagged = enc.tag_fits s (room_left b bs tag s h (omega arith)) in
            let s1 : Stream = (encode_tag_for_field s).1 in
            let whole1 : length (buffer s1) ≡ length b =
              omega (arith, ap length tagged.1, length-splice (bytes_written s) tag (buffer s)) in
            rw (tagged.0, enc.message_full r s1 (omega (arith, tagged.2, h.position))) refl
      ]
