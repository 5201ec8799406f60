-- ===== src/Session/Broker/Utf8.antt =====
-- src/core/broker.c: utf8_is_valid.
pub mod Scalars
use pbns.Common.{ℕ, Bool, true, false, ◌&&◌, List, [], ◌∷◌, leb, ◌==◌, if◌then◌else◌}

-- `low <= byte && byte <= high`
abbrev pub within : ℕ → ℕ → ℕ → Bool
within low byte high = leb low byte && leb byte high

-- The loop of `utf8_is_valid`, by the bytes that are left. A branch that asks for more bytes than
-- there are has failed.
unfoldable pub utf8_is_valid : List ℕ → Bool
utf8_is_valid [] = true
utf8_is_valid (first ∷ []) = leb first 0x7f
utf8_is_valid (first ∷ second ∷ []) =
    if leb first 0x7f
    then utf8_is_valid (second ∷ [])
    else within 0xc2 first 0xdf && within 0x80 second 0xbf
utf8_is_valid (first ∷ second ∷ third ∷ []) =
    let after_one = utf8_is_valid (second ∷ third ∷ []) in
    let after_two = utf8_is_valid (third ∷ []) in
    if leb first 0x7f
    then after_one
    else if within 0xc2 first 0xdf
    then within 0x80 second 0xbf && after_two
    else within 0xe0 first 0xef
      && within (if first == 0xe0 then 0xa0 else 0x80) second (if first == 0xed then 0x9f else 0xbf)
      && within 0x80 third 0xbf
utf8_is_valid (first ∷ second ∷ third ∷ fourth ∷ rest) =
    let after_one = utf8_is_valid (second ∷ third ∷ fourth ∷ rest) in
    let after_two = utf8_is_valid (third ∷ fourth ∷ rest) in
    let after_three = utf8_is_valid (fourth ∷ rest) in
    let after_four = utf8_is_valid rest in
    if leb first 0x7f
    then after_one
    else if within 0xc2 first 0xdf
    then within 0x80 second 0xbf && after_two
    else if within 0xe0 first 0xef
    then within (if first == 0xe0 then 0xa0 else 0x80) second (if first == 0xed then 0x9f else 0xbf)
      && within 0x80 third 0xbf
      && after_three
    else within 0xf0 first 0xf4
      && within (if first == 0xf0 then 0x90 else 0x80) second (if first == 0xf4 then 0x8f else 0xbf)
      && within 0x80 third 0xbf
      && within 0x80 fourth 0xbf
      && after_four
