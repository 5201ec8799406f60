-- ===== src/Wire/Cobs/Storage.antt =====
-- `pbns_cobs_encode` as a whole: what it leaves in the storage, and when it refuses.
use pbns.Common.{
  ℕ, suc, ◌%◌, ◌+◌, ◌-◌, ◌≤◌, ◌<◌, ◌≡◌, refl, ◌∙◌, true, List, [], ◌∷◌, ◌++◌, ◌==◌, if◌then◌else◌,
  length, drop, take, ok, err, limit, arith, length-append, set, take-append-drop,
  take-append_exact, All, drop-cons, length-take,
}
use pbns.Common.Memory.{View, Buffer, given, view_is_valid, buffer_is_valid}
use pbns.Wire.Cobs.{fail, encode_loop, encode, max_encoded_size}
use pbns.Wire.Cobs.Spec.{
  encoded_from, encoded, length-encoded_from, length-encoded-le, IsCode, encoded_from-IsCode,
}
use pbns.Wire.Cobs.Encode.{encode_loop-finished}

encode_loop-limit :
    (capacity : ℕ) (rest block out : List ℕ) (w c code : ℕ)
    → length block < 254
    → w ≤ capacity
    → capacity + 1 + length block < w + length (encoded_from block rest)
    → code ≡ length block + 1
    → ((encode_loop capacity rest w c code out).status ≡ err limit)
      × ((encode_loop capacity rest w c code out).written ≡ 0)
unfolding encode_loop encoded_from
encode_loop-limit capacity [] block out w c code small room short e = absurd (omega arith)
encode_loop-limit capacity (b ∷ rest) block out w c code small room short e = ground (
  arith,
  encode_loop-limit capacity rest [] (set out c code) (w + 1) w 1,
  encode_loop-limit capacity rest [] (set (set out w b) c ((code + 1) % 256)) (w + 2) (w + 1) 1,
  encode_loop-limit capacity rest (block ++ b ∷ []) (set out w b) (w + 1) c ((code + 1) % 256),
  length-append {0} block (b ∷ []),
  length-append {0} block (encoded_from [] rest),
  length-append {0} block (b ∷ encoded_from [] rest),
)

encode_loop-encoded :
    (input tail : List ℕ) (x : ℕ)
    → length (encoded input) ≤ 1 + length tail
    → encode_loop (1 + length tail) input 1 0 1 (x ∷ tail) ≡ record {
      status = ok;
      output = encoded input ++ drop (length (encoded input)) (x ∷ tail);
      written = length (encoded input);
    }
encode_loop-encoded input tail x fits =
    let n = length (encoded input) in
    let some_code = length-encoded_from [] input in
    let used = length-take (n - 1) tail in
    let run =
      encode_loop-finished (1 + length tail) (drop (n - 1) tail) input [] [] (take (n - 1) tail) x 1
        0 1 (omega arith) (omega arith) (omega arith) refl refl refl in
    rw (drop-cons n x tail (omega arith)) (rw (take-append-drop (n - 1) tail) at run ∙ ground arith)

encode_cases :
    (input : View) (output : Buffer)
    → view_is_valid input ≡ true
    → buffer_is_valid output ≡ true
    → (length (encoded input.bytes) ≤ length output.bytes
        → encode given input output ≡ record {
          status = ok;
          output = encoded input.bytes ++ drop (length (encoded input.bytes)) output.bytes;
          written = length (encoded input.bytes);
        })
      × (length output.bytes < length (encoded input.bytes)
          → ((encode given input output).status ≡ err limit)
            × ((encode given input output).written ≡ 0))
unfolding encode
encode_cases input output vi vo = rw (vi, vo) (by_storage output.bytes)
  where
    by_storage :
        (bytes : List ℕ)
        → (length (encoded input.bytes) ≤ length bytes
            → (if length bytes == 0
                then fail (err limit) bytes
                else encode_loop (length bytes) input.bytes 1 0 1 bytes)
              ≡ record {
                status = ok;
                output = encoded input.bytes ++ drop (length (encoded input.bytes)) bytes;
                written = length (encoded input.bytes);
              })
          × (length bytes < length (encoded input.bytes)
              → ((if length bytes == 0
                    then fail (err limit) bytes
                    else encode_loop (length bytes) input.bytes 1 0 1 bytes).status
                  ≡ err limit)
                × ((if length bytes == 0
                      then fail (err limit) bytes
                      else encode_loop (length bytes) input.bytes 1 0 1 bytes).written
                    ≡ 0))
    by_storage [] =
        (λ h. absurd (omega (arith, length-encoded_from [] input.bytes)), λ _. (refl, refl))
    by_storage (x ∷ tail) = (
      λ h. ground (arith, encode_loop-encoded input.bytes tail x),
      λ h. ground (arith, encode_loop-limit (suc (length tail)) input.bytes [] (x ∷ tail) 1 0 1),
    )

module _ (input : View) (output : Buffer) (vi : view_is_valid input ≡ true)
    (vo : buffer_is_valid output ≡ true) where
  -- For a valid view and valid empty storage: where the encoding fits the storage, the encoder
  -- returns OK and leaves the encoding at the start of the storage, the rest of the storage as it
  -- was, and the length of the encoding in `*written`.
  pub encode-encoded :
      length (encoded input.bytes) ≤ length output.bytes
      → encode given input output ≡ record {
        status = ok;
        output = encoded input.bytes ++ drop (length (encoded input.bytes)) output.bytes;
        written = length (encoded input.bytes);
      }
  encode-encoded = (encode_cases input output vi vo).0

  -- For a valid view and valid empty storage: where the encoding does not fit, the encoder returns
  -- `LIMIT` and reports no bytes written.
  pub encode-limit :
      length output.bytes < length (encoded input.bytes)
      → ((encode given input output).status ≡ err limit) × ((encode given input output).written ≡ 0)
  encode-limit = (encode_cases input output vi vo).1

-- For a valid view of bytes and valid empty storage of at least the size that
-- `pbns_cobs_max_encoded_size` reports with OK: the encoder succeeds, writes no more than that
-- size, and no byte that it writes is a zero.
pub encode-max_encoded_size :
    (input : View) (output : Buffer)
    → view_is_valid input ≡ true
    → buffer_is_valid output ≡ true
    → All (λ b. b < 256) input.bytes
    → (max_encoded_size given (length input.bytes)).0 ≡ ok
    → (max_encoded_size given (length input.bytes)).1 ≤ length output.bytes
    → let done = encode given input output in
      (done.status ≡ ok)
      × (done.written ≤ (max_encoded_size given (length input.bytes)).1)
      × All IsCode (take done.written done.output)
unfolding max_encoded_size
encode-max_encoded_size input output vi vo bytes sized room =
    let n = length (encoded input.bytes) in
    let bound = length-encoded-le [] input.bytes (omega arith) in
    let fits : n ≤ length output.bytes = ground arith in
    rw
      (
        encode-encoded input output vi vo fits,
        take-append_exact (encoded input.bytes) (drop n output.bytes) n refl,
      )
      (refl, ground arith, encoded_from-IsCode [] input.bytes (omega arith) tt bytes)
