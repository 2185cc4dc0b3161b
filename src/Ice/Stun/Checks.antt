-- ===== src/Ice/Stun/Checks.antt =====
-- FINGERPRINT and MESSAGE-INTEGRITY of src/ice/stun.cpp: made and checked.
-- The CRC-32 and the HMAC are webrtc's and OpenSSL's: parameters.
use xrtc_server.Base.{
  ℕ, zero, suc, ◌+◌, ◌-◌, ◌%◌, ◌/◌, Bool, true, false, not, ◌&&◌, List, [], ◌∷◌, ◌++◌, Option, none,
  some, ltb, ◌==◌, length, take, drop, replicate, is_some, if◌then◌else◌, ◌>>=◌,
}
use xrtc_server.Ice.Stun.{
  Codec, StunMessage, uint32_attribute, new_byte_string, attr_message_integrity, attr_fingerprint,
  magic_cookie, padding, add_attribute, get_attribute, write, xor,
}

abbrev pub xor_value : ℕ
xor_value = 1398035790

-- Byte for byte, as memcmp.
abbrev pub same_bytes : List ℕ → List ℕ → Bool
same_bytes [] [] = true
same_bytes [] (y ∷ ys) = false
same_bytes (x ∷ xs) [] = false
same_bytes (x ∷ xs) (y ∷ ys) = x == y && same_bytes xs ys

module _ (c : Codec) (compute_crc32 : List ℕ → ℕ) where
  unfoldable pub validate_fingerprint : List ℕ → Bool
  validate_fingerprint data_bytes =
      let len = length data_bytes in
      let attr = drop (len - 8) data_bytes in
      len % 4 == 0
      && not (ltb len 28)
      && c.get_be32 (drop 4 data_bytes) == magic_cookie
      && c.get_be16 attr == attr_fingerprint
      && c.get_be16 (drop 2 attr) == 4
      && xor 32 (c.get_be32 (drop 4 attr)) xor_value == compute_crc32 (take (len - 8) data_bytes)

  -- The attribute is added with 0, the message written, and the value set in the attribute.
  unfoldable pub fingerprint_of : StunMessage → Option ℕ
  fingerprint_of m = do
    buf ← write c (add_attribute m (uint32_attribute attr_fingerprint 0))
    some (xor 32 (compute_crc32 (take (length buf - 8) buf)) xor_value)

  abbrev pub with_fingerprint : StunMessage → Option ℕ → StunMessage × Bool
  with_fingerprint m none = (add_attribute m (uint32_attribute attr_fingerprint 0), false)
  with_fingerprint m (some value) =
      (add_attribute m (uint32_attribute attr_fingerprint value), true)

  unfoldable pub add_fingerprint : StunMessage → StunMessage × Bool
  add_fingerprint m = with_fingerprint m (fingerprint_of m)

pub data IntegrityStatus : Type 0 where
  not_set no_integrity integrity_ok integrity_bad : IntegrityStatus

-- HMAC-SHA1 under a key, or nothing when it does not give twenty bytes.
module _ (c : Codec) (compute_hmac : List ℕ → List ℕ → Option (List ℕ)) where
  -- The place of the attribute of a type. A round moves on by four bytes at least.
  unfoldable pub find_position : ℕ → List ℕ → ℕ → ℕ → Option ℕ
  find_position type buf zero pos = none
  find_position type buf (suc fuel) pos =
      let len = c.get_be16 (drop (pos + 2) buf) in
      let rest = find_position type buf fuel (pos + 4 + len + padding len) in
      if ltb (length buf) (pos + 4)
      then none
      else if c.get_be16 (drop pos buf) == type
      then some pos
      else rest

  -- The bytes before the attribute; when more than the attribute follows, their length field ends
  -- the message with the attribute.
  abbrev pub authenticated : List ℕ → ℕ → List ℕ
  authenticated buf pos =
      if ltb (pos + 24) (length buf)
      then take 2 buf ++ (c.bytes16 (pos + 4) ++ take (pos - 4) (drop 4 buf))
      else take pos buf

  -- A shorter attribute at the end makes the source read past the buffer; here the bytes differ.
  abbrev pub matches : List ℕ → ℕ → Option (List ℕ) → Bool
  matches buf pos none = false
  matches buf pos (some hmac) = same_bytes (take 20 (drop (pos + 4) buf)) hmac

  abbrev pub check_at : List ℕ → List ℕ → Option ℕ → Bool
  check_at password buf none = false
  check_at password buf (some pos) = matches buf pos (compute_hmac password (authenticated buf pos))

  unfoldable pub validate_integrity_of_type : ℕ → List ℕ → List ℕ → Bool
  validate_integrity_of_type type buf password =
      length buf % 4 == 0
      && not (ltb (length buf) 20)
      && c.get_be16 (drop 2 buf) + 20 == length buf
      && check_at password buf (find_position type buf (length buf) 20)

  -- `buffer` is what Read kept of the message.
  unfoldable pub validate_message_integrity : StunMessage → List ℕ → List ℕ → IntegrityStatus
  validate_message_integrity m buffer password =
      if is_some (get_attribute m.attrs attr_message_integrity)
      then (if validate_integrity_of_type attr_message_integrity buffer password
          then integrity_ok
          else integrity_bad)
      else no_integrity

  -- The attribute is added with twenty times '0', the message written, and the bytes set.
  unfoldable pub integrity_of : StunMessage → List ℕ → Option (List ℕ)
  integrity_of m key = do
    buf ← write c (add_attribute m (new_byte_string attr_message_integrity (replicate 20 48)))
    compute_hmac key (take (length buf - 24) buf)

  abbrev pub with_integrity : StunMessage → Option (List ℕ) → StunMessage × Bool
  with_integrity m none =
      (add_attribute m (new_byte_string attr_message_integrity (replicate 20 48)), false)
  with_integrity m (some hmac) =
      (add_attribute m (new_byte_string attr_message_integrity hmac), true)

  unfoldable pub add_message_integrity : StunMessage → List ℕ → StunMessage × Bool
  add_message_integrity m key = with_integrity m (integrity_of m key)

-- Answers to requests: `|` sets bits that are clear in a request's type.
abbrev pub is_stun_request_type : ℕ → Bool
is_stun_request_type type = type / 16 % 2 == 0 && type / 256 % 2 == 0

abbrev pub get_stun_success_response : ℕ → Option ℕ
get_stun_success_response type = if is_stun_request_type type then some (type + 256) else none

abbrev pub get_stun_error_response : ℕ → Option ℕ
get_stun_error_response type = if is_stun_request_type type then some (type + 272) else none
