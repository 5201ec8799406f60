-- ===== src/Tests/CobsRuns.antt =====
-- src/core/cobs.c and src/core/crc32c.c on a few bytes.
use pbns.Common.{
  ℕ, ◌-◌, ◌≡◌, ◌≢◌, ◌≤◌, ◌<◌, refl, List, [], ◌∷◌, ◌++◌, length, take, drop, All, ok, err, arith,
  replicate, limit,
}
use pbns.Common.Memory.{View, Buffer, given}
use pbns.Common.Words.{uint32_max}
use pbns.Wire.Cobs.{encode, decode, decode_loop, copy_run, max_encoded_size}
use pbns.Wire.Cobs.Spec.{encoded, encoded_from, IsCode}
use pbns.Wire.Cobs.Storage.{encode-encoded, encode-limit, encode-max_encoded_size}
use pbns.Wire.Cobs.RoundTrip.{decode-encode}
use pbns.Wire.Cobs.Sound.{decode_sound}
use pbns.Wire.Cobs.Fuel.{decode_loop_fuel}
use pbns.Wire.Crc32c.{crc32c_bytes}
use pbns.Wire.Crc32c.Bitwise.{crc32c_bytes-crc_bits, crc_bits}
use pbns.Wire.Crc32c.Detect.{crc32c_bytes-detects}

abbrev bytes : List ℕ
bytes = 17 ∷ 0 ∷ 0 ∷ 34 ∷ []

abbrev input : View
input = record { ptr = 100; bytes = bytes }

abbrev room : ℕ → Buffer
room n = record { ptr = 200; len = 0; bytes = replicate n 9 }

encode-encoded_example : encode given input (room 8) ≡ record {
  status = ok;
  output = encoded bytes ++ drop (length (encoded bytes)) (replicate 8 9);
  written = length (encoded bytes);
}
unfolding encoded_from
encode-encoded_example = encode-encoded input (room 8) refl refl (omega arith)

encode-limit_example :
    ((encode given input (room 4)).status ≡ err limit) × ((encode given input (room 4)).written ≡ 0)
unfolding encoded_from
encode-limit_example = encode-limit input (room 4) refl refl (omega arith)

encode-max_encoded_size_example :
    let done = encode given input (room 5) in
    (done.status ≡ ok)
    × (done.written ≤ (max_encoded_size given 4).1)
    × All IsCode (take done.written done.output)
unfolding max_encoded_size
encode-max_encoded_size_example =
    encode-max_encoded_size input (room 5) refl refl (omega arith) refl (omega arith)

decode-encode_example :
    let sent = encode given input (room 5) in
    let received =
      decode given (record { ptr = 300; bytes = take sent.written sent.output }) (room 4) in
    (sent.status ≡ ok) × (received.status ≡ ok) × (take received.written received.output ≡ bytes)
unfolding encoded_from
decode-encode_example =
    decode-encode input (room 5) (room 4) 300 refl refl refl refl (omega arith) (omega arith)

abbrev sent : View
sent = record { ptr = 100; bytes = 2 ∷ 17 ∷ 1 ∷ 2 ∷ 34 ∷ [] }

decode_sound_example :
    let n = (decode given sent (room 4)).written in (n < 5) × (n ≤ 4) × All (λ b. b ≢ 0) sent.bytes
unfolding decode decode_loop copy_run
decode_sound_example = decode_sound sent (room 4) refl

decode_loop_fuel_example :
    decode_loop 4 9 sent.bytes 0 (replicate 4 9) ≡ decode_loop 4 5 sent.bytes 0 (replicate 4 9)
decode_loop_fuel_example =
    decode_loop_fuel 4 9 5 sent.bytes 0 (replicate 4 9) (omega arith) (omega arith)

crc32c_bytes-crc_bits_example : crc32c_bytes bytes ≡ uint32_max - crc_bits uint32_max bytes
crc32c_bytes-crc_bits_example = crc32c_bytes-crc_bits bytes (omega arith)

crc32c_bytes-detects_example : crc32c_bytes (1 ∷ 2 ∷ 3 ∷ []) ≢ crc32c_bytes (1 ∷ 4 ∷ 3 ∷ [])
crc32c_bytes-detects_example =
    crc32c_bytes-detects (1 ∷ []) (3 ∷ []) 2 4 (omega arith) (omega arith) (omega arith)
      (omega arith) (omega arith)
