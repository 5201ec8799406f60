-- ===== src/Wire/Frame/Layout.antt =====
-- Where the fields of a raw record stand.
use pbns.Common.{
  ℕ, ◌+◌, ◌%◌, ◌^◌, ◌<◌, ◌≡◌, refl, sym, List, [], ◌∷◌, ◌++◌, append-nil, append_assoc, arith,
  length, get_or, take, drop, length-append, take-append_exact, drop-append_exact, drop-drop,
}
use pbns.Common.Words.{u32_be, read_u32_be, read_u32_be-u32_be}
use pbns.Wire.Crc32c.{crc32c_bytes}
use pbns.Wire.Crc32c.Detect.{crc32c_bytes-lt}
use pbns.Wire.Frame.{Frame, frame_magic, protocol_version, header_prefix, with_crc, raw_record}

abbrev pub length_u32_be : (v : ℕ) → length (u32_be v) ≡ 4
unfolding u32_be
length_u32_be v = refl

module _ (f : Frame) (payload : List ℕ) (sized : length f.request_id ≡ 16) where
  abbrev pub prefix : List ℕ
  prefix = header_prefix f (length payload)

  abbrev pub header : List ℕ
  header = with_crc prefix

  abbrev pub body : List ℕ
  body = header ++ payload

  pub length-prefix : length prefix ≡ 32
  unfolding header_prefix u32_be
  length-prefix =
      omega (arith, length-append {0} f.request_id (u32_be f.sequence ++ u32_be (length payload)))

  pub length-header : length header ≡ 36
  unfolding with_crc
  length-header = omega (
    arith,
    length-prefix,
    length_u32_be (crc32c_bytes prefix),
    length-append {0} prefix (u32_be (crc32c_bytes prefix)),
  )

  pub length-body : length body ≡ 36 + length payload
  length-body = omega (arith, length-header, length-append {0} header payload)

  pub length-raw_record : length (raw_record f payload) ≡ 40 + length payload
  unfolding raw_record with_crc
  length-raw_record = omega (
    arith,
    length-body,
    length_u32_be (crc32c_bytes body),
    length-append {0} body (u32_be (crc32c_bytes body)),
  )

  -- The record as the prefix and what follows it.
  raw_record-prefix :
      raw_record f payload
      ≡ prefix ++ (u32_be (crc32c_bytes prefix) ++ (payload ++ u32_be (crc32c_bytes body)))
  unfolding raw_record with_crc
  raw_record-prefix = simp append_assoc

  raw_record-header : raw_record f payload ≡ header ++ (payload ++ u32_be (crc32c_bytes body))
  unfolding raw_record with_crc
  raw_record-header = simp append_assoc

  raw_record-body : raw_record f payload ≡ body ++ u32_be (crc32c_bytes body)
  unfolding raw_record with_crc
  raw_record-body = refl

  pub header_crc :
      (take 32 (raw_record f payload) ≡ prefix)
      × (read_u32_be (drop 32 (raw_record f payload)) ≡ crc32c_bytes prefix)
  header_crc =
      let rest = u32_be (crc32c_bytes prefix) ++ (payload ++ u32_be (crc32c_bytes body)) in
      rw
        (
          raw_record-prefix,
          take-append_exact prefix rest 32 (sym length-prefix),
          drop-append_exact prefix rest 32 (sym length-prefix),
        )
        (refl, read_u32_be-u32_be (crc32c_bytes prefix) _ (crc32c_bytes-lt prefix))

  pub record_crc :
      (take (36 + length payload) (raw_record f payload) ≡ body)
      × (read_u32_be (drop (36 + length payload) (raw_record f payload)) ≡ crc32c_bytes body)
  record_crc =
      let rest = u32_be (crc32c_bytes body) in
      rw
        (
          raw_record-body,
          take-append_exact body rest _ (sym length-body),
          drop-append_exact body rest _ (sym length-body),
        )
        (refl, rw append-nil at (read_u32_be-u32_be (crc32c_bytes body) [] (crc32c_bytes-lt body)))

  pub payload_at : take (length payload) (drop 36 (raw_record f payload)) ≡ payload
  payload_at =
      let rest = payload ++ u32_be (crc32c_bytes body) in
      rw (raw_record-header, drop-append_exact header rest 36 (sym length-header))
        (take-append_exact payload (u32_be (crc32c_bytes body)) (length payload) refl)

  -- Behind the eight fixed bytes stand the request id and the two words.
  after_fixed : List ℕ
  after_fixed = u32_be (crc32c_bytes prefix) ++ (payload ++ u32_be (crc32c_bytes body))

  raw_record-fixed :
      raw_record f payload
      ≡ b'P'
        ∷ b'B'
        ∷ b'N'
        ∷ b'S'
        ∷ protocol_version
        ∷ (f.service % 256)
        ∷ (f.type % 256)
        ∷ f.flags
        ∷ (f.request_id ++ (u32_be f.sequence ++ (u32_be (length payload) ++ after_fixed)))
  unfolding header_prefix after_fixed
  raw_record-fixed = rw raw_record-prefix (simp append_assoc)

  pub fixed_bytes :
      (take 4 (raw_record f payload) ≡ frame_magic)
      × (get_or (raw_record f payload) 4 0 ≡ protocol_version)
      × (get_or (raw_record f payload) 5 0 ≡ f.service % 256)
      × (get_or (raw_record f payload) 6 0 ≡ f.type % 256)
      × (get_or (raw_record f payload) 7 0 ≡ f.flags)
  fixed_bytes = rw raw_record-fixed (refl, refl, refl, refl, refl)

  pub request_id_at : take 16 (drop 8 (raw_record f payload)) ≡ f.request_id
  request_id_at = rw raw_record-fixed (take-append_exact f.request_id _ 16 (sym sized))

  pub words_at :
      f.sequence < 2 ^ 32
      → length payload < 2 ^ 32
      → (read_u32_be (drop 24 (raw_record f payload)) ≡ f.sequence)
        × (read_u32_be (drop 28 (raw_record f payload)) ≡ length payload)
  words_at small short =
      let words = u32_be f.sequence ++ (u32_be (length payload) ++ after_fixed) in
      let twenty = drop-append_exact f.request_id words 16 (sym sized) in
      let split : drop 20 (f.request_id ++ words) ≡ drop 4 (drop 16 (f.request_id ++ words)) =
        sym (drop-drop 16 4 (f.request_id ++ words)) in
      rw
        (
          raw_record-fixed,
          split,
          twenty,
          drop-append_exact (u32_be f.sequence) (u32_be (length payload) ++ after_fixed) 4
              (sym (length_u32_be f.sequence)),
        )
        (
          read_u32_be-u32_be f.sequence _ small,
          read_u32_be-u32_be (length payload) after_fixed short,
        )
