-- ===== src/Ice/Stun.antt =====
-- src/ice/stun.h, src/ice/stun.cpp: STUN messages, written and read.
-- A buffer of webrtc's byte_buffer.h is the list of its bytes: WriteUInt8, WriteBytes and
-- WriteString append to it. Numbers of more than one byte are the codec's, a parameter.
pub mod Reading
pub mod Checks
pub mod Lengths
pub mod Fingerprint
pub mod Termination
mod Examples
use xrtc_server.Base.{
  ℕ, zero, suc, ◌+◌, ◌-◌, ◌*◌, ◌/◌, ◌%◌, ◌≡◌, Bool, true, false, ◌&&◌, ◌||◌, List, [], ◌∷◌, ◌++◌,
  Option, none, some, ltb, leb, ◌==◌, length, take, replicate, if◌then◌else◌, ◌>>=◌,
}
use xrtc_server.Base.Seq.{u16}

-- Network byte order, as webrtc's byte_buffer.h and byte_order.h have it: the bytes of a number; the
-- readers, which give the value and what is left, or nothing when the buffer is too short; GetBE16
-- and GetBE32 at the front of a list.
pub record Codec : Type 0 where
  pub bytes16 : ℕ → List ℕ
  pub bytes32 : ℕ → List ℕ
  pub bytes64 : ℕ → List ℕ
  pub read_uint16 : List ℕ → Option (ℕ × List ℕ)
  pub read_uint32 : List ℕ → Option (ℕ × List ℕ)
  pub read_bytes : ℕ → List ℕ → Option (List ℕ × List ℕ)
  pub consume : ℕ → List ℕ → Option (List ℕ)
  pub get_be16 : List ℕ → ℕ
  pub get_be32 : List ℕ → ℕ

abbrev pub magic_cookie : ℕ
magic_cookie = 554869826

abbrev pub attr_username : ℕ
attr_username = 6

abbrev pub attr_message_integrity : ℕ
attr_message_integrity = 8

abbrev pub attr_error_code : ℕ
attr_error_code = 9

abbrev pub attr_priority : ℕ
attr_priority = 36

abbrev pub attr_fingerprint : ℕ
attr_fingerprint = 32808

pub data Family : Type 0 where
  inet inet6 unspec : Family

-- What the attributes read of an rtc::SocketAddress; the addresses as their bytes.
pub record SocketAddress : Type 0 where
  pub family : Family
  pub ipv4_address : List ℕ
  pub ipv6_address : List ℕ
  pub port : ℕ

-- Each class of attribute: its type, the length it claims, and its value.
pub data StunAttribute : Type 0 where
  uint32_attribute : (type bits : ℕ) → StunAttribute
  uint64_attribute : (type bits : ℕ) → StunAttribute
  byte_string_attribute : (type claimed : ℕ) (bytes : List ℕ) → StunAttribute
  error_code_attribute : (type claimed class number : ℕ) (reason : List ℕ) → StunAttribute
  address_attribute : (type claimed : ℕ) (address : SocketAddress) → StunAttribute
  xor_address_attribute : (type claimed : ℕ) (address : SocketAddress) → StunAttribute

abbrev pub type_of : StunAttribute → ℕ
type_of (uint32_attribute type bits) = type
type_of (uint64_attribute type bits) = type
type_of (byte_string_attribute type claimed bytes) = type
type_of (error_code_attribute type claimed class number reason) = type
type_of (address_attribute type claimed address) = type
type_of (xor_address_attribute type claimed address) = type

abbrev pub length_of : StunAttribute → ℕ
length_of (uint32_attribute type bits) = 4
length_of (uint64_attribute type bits) = 8
length_of (byte_string_attribute type claimed bytes) = claimed
length_of (error_code_attribute type claimed class number reason) = claimed
length_of (address_attribute type claimed address) = claimed
length_of (xor_address_attribute type claimed address) = claimed

-- The constructors that take a value.
abbrev pub new_byte_string : ℕ → List ℕ → StunAttribute
new_byte_string type str = byte_string_attribute type (u16 (length str)) str

abbrev pub size_of_family : Family → ℕ
size_of_family inet = 8
size_of_family inet6 = 20
size_of_family unspec = 0

abbrev pub new_address : ℕ → SocketAddress → StunAttribute
new_address type address = address_attribute type (size_of_family address.family) address

abbrev pub new_xor_address : ℕ → SocketAddress → StunAttribute
new_xor_address type address = xor_address_attribute type (size_of_family address.family) address

-- CreateErrorCode, set_code and set_reason; `class_` and `number_` are bytes.
abbrev pub new_error_code : ℕ → List ℕ → StunAttribute
new_error_code code reason =
    error_code_attribute attr_error_code (u16 (4 + length reason)) (code / 100 % 256) (code % 100)
      reason

pub record StunMessage : Type 0 where
  pub type : ℕ
  pub claimed : ℕ
  pub transaction_id : List ℕ
  pub attrs : List StunAttribute

abbrev pub padding : ℕ → ℕ
padding len = if len % 4 == 0 then 0 else 4 - len % 4

unfoldable pub add_attribute : StunMessage → StunAttribute → StunMessage
add_attribute m a = record m {
  claimed = u16 (m.claimed + (length_of a + padding (length_of a) + 4));
  attrs = m.attrs ++ (a ∷ []);
}

unfoldable pub get_attribute : List StunAttribute → ℕ → Option StunAttribute
get_attribute [] type = none
get_attribute (a ∷ others) type = if type_of a == type then some a else get_attribute others type

-- a ^ b of the lowest n bits.
unfoldable pub xor : ℕ → ℕ → ℕ → ℕ
xor zero a b = 0
xor (suc n) a b = (if a % 2 == b % 2 then 0 else 1) + 2 * xor n (a / 2) (b / 2)

-- The bytes of a list and those of the magic cookie.
unfoldable pub xor_bytes : List ℕ → List ℕ → List ℕ
xor_bytes [] ks = []
xor_bytes (b ∷ bs) [] = b ∷ bs
xor_bytes (b ∷ bs) (k ∷ ks) = xor 8 b k ∷ xor_bytes bs ks

module _ (c : Codec) where
  abbrev pub write_address : Family → SocketAddress → Option (List ℕ)
  write_address inet a = some (0 ∷ 1 ∷ c.bytes16 a.port ++ a.ipv4_address)
  write_address inet6 a = some (0 ∷ 2 ∷ c.bytes16 a.port ++ a.ipv6_address)
  write_address unspec a = none

  -- GetXoredIP has no value for IPv6.
  abbrev pub write_xor_address : Family → SocketAddress → Option (List ℕ)
  write_xor_address inet a =
      some (
        0 ∷ 1 ∷ c.bytes16 (xor 16 a.port 8466)
        ++ xor_bytes a.ipv4_address (33 ∷ 18 ∷ 164 ∷ 66 ∷ []))
  write_xor_address inet6 a = none
  write_xor_address unspec a = none

  unfoldable pub write_attribute : StunAttribute → Option (List ℕ)
  write_attribute (uint32_attribute type bits) = some (c.bytes32 bits)
  write_attribute (uint64_attribute type bits) = some (c.bytes64 bits)
  write_attribute (byte_string_attribute type claimed bytes) =
      some (take claimed bytes ++ replicate (padding claimed) 0)
  write_attribute (error_code_attribute type claimed class number reason) =
      some (c.bytes32 (class * 256 + number) ++ (reason ++ replicate (padding claimed) 0))
  write_attribute (address_attribute type claimed address) = write_address address.family address
  write_attribute (xor_address_attribute type claimed address) =
      write_xor_address address.family address

  unfoldable pub write_attributes : List StunAttribute → Option (List ℕ)
  write_attributes [] = some []
  write_attributes (a ∷ others) = do
    value ← write_attribute a
    rest ← write_attributes others
    some (c.bytes16 (type_of a) ++ (c.bytes16 (length_of a) ++ (value ++ rest)))

  abbrev pub header : StunMessage → List ℕ
  header m =
      c.bytes16 m.type ++ (c.bytes16 m.claimed ++ (c.bytes32 magic_cookie ++ m.transaction_id))

  unfoldable pub write : StunMessage → Option (List ℕ)
  write m = do body ← write_attributes m.attrs; some (header m ++ body)
