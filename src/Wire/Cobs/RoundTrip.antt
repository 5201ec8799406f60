-- ===== src/Wire/Cobs/RoundTrip.antt =====
-- Decoding what the encoder wrote gives the input back.
use pbns.Common.{
  ℕ, ◌≤◌, ◌≡◌, refl, ◌∙◌, true, false, List, [], ◌++◌, arith, ◌==◌, ne→==, length, take, drop,
  take-append_exact, ok,
}
use pbns.Common.Memory.{View, Buffer, given, view_is_valid, buffer_is_valid}
use pbns.Wire.Cobs.{encode, decode}
use pbns.Wire.Cobs.Spec.{encoded, length-encoded_from}
use pbns.Wire.Cobs.Decode.{decode_loop-encoded_from}
use pbns.Wire.Cobs.Storage.{encode-encoded}

-- The decoder reads any encoding back into storage that is large enough.
pub decode-encoded :
    (input : List ℕ) (ptr : ℕ) (output : Buffer)
    → (ptr == 0) ≡ false
    → buffer_is_valid output ≡ true
    → length input ≤ length output.bytes
    → decode given (record { ptr = ptr; bytes = encoded input }) output ≡ record {
      status = ok;
      output = input ++ drop (length input) output.bytes;
      written = length input;
    }
unfolding decode
decode-encoded input ptr output some_ptr vo fits =
    let some_code = length-encoded_from [] input in
    let loop =
      decode_loop-encoded_from (length output.bytes) input (length (encoded input)) [] []
        output.bytes 0 tt (omega arith) (omega arith) refl (omega arith) (omega arith) in
    rw (some_ptr, vo, ne→== (length (encoded input)) 0 (omega arith)) (loop ∙ ground arith)

-- For a valid view and two valid empty storages: whenever the encoding fits the first storage and
-- the input fits the second, encoding and then decoding, from an address that is not NULL, both
-- return OK and give the input back.
pub decode-encode :
    (input : View) (output decoded : Buffer) (ptr : ℕ)
    → view_is_valid input ≡ true
    → buffer_is_valid output ≡ true
    → buffer_is_valid decoded ≡ true
    → (ptr == 0) ≡ false
    → length (encoded input.bytes) ≤ length output.bytes
    → length input.bytes ≤ length decoded.bytes
    → let sent = encode given input output in
      let received =
        decode given (record { ptr = ptr; bytes = take sent.written sent.output }) decoded in
      (sent.status ≡ ok)
      × (received.status ≡ ok)
      × (take received.written received.output ≡ input.bytes)
decode-encode input output decoded ptr vi vo vd some_ptr fits room =
    let n = length (encoded input.bytes) in
    rw
      (
        encode-encoded input output vi vo fits,
        take-append_exact (encoded input.bytes) (drop n output.bytes) n refl,
        decode-encoded input.bytes ptr decoded some_ptr vd room,
      )
      (refl, refl, take-append_exact input.bytes _ (length input.bytes) refl)
