-- ===== src/Ice/Stun/Reading.antt =====
-- StunMessage::Read of src/ice/stun.cpp.
use xrtc_server.Base.{
  ℕ, zero, suc, ◌+◌, ◌-◌, ◌%◌, ◌||◌, List, [], ◌∷◌, ◌++◌, Option, none, some, leb, ◌==◌, length,
  if◌then◌else◌, ◌>>=◌,
}
use xrtc_server.Base.Seq.{u16}
use xrtc_server.Ice.Stun.{
  Codec, StunAttribute, StunMessage, byte_string_attribute, uint32_attribute, attr_username,
  attr_message_integrity, attr_priority, magic_cookie, padding,
}

pub data ValueType : Type 0 where
  unknown uint32_value byte_string_value : ValueType

abbrev pub value_type : ℕ → ValueType
value_type type =
    if type == attr_username || type == attr_message_integrity
    then byte_string_value
    else if type == attr_priority
    then uint32_value
    else unknown

-- How the loop of Read ends: with the attributes, with `false`, or its rounds are used up.
pub data Parsed : Type 0 where
  ok : List StunAttribute → Parsed
  failed : Parsed
  out_of_rounds : Parsed

-- A message whose Read fails is dropped by its callers, and its fields are left out.
pub data Result : Type 0 where
  message : StunMessage → Result
  malformed unfinished : Result

module _ (c : Codec) where
  -- ConsumePadding does not look at the result of Consume, which leaves a short buffer alone.
  abbrev pub left_after : List ℕ → Option (List ℕ) → List ℕ
  left_after buf none = buf
  left_after buf (some rest) = rest

  abbrev pub consume_padding : ℕ → List ℕ → List ℕ
  consume_padding len buf =
      if len % 4 == 0 then buf else left_after buf (c.consume (4 - len % 4) buf)

  -- The attribute of a known type, or what is left after one of an unknown type. The length that an
  -- unknown type is rounded up to is a uint16_t.
  unfoldable pub read_attribute : ValueType → ℕ → ℕ → List ℕ → Option (List StunAttribute × List ℕ)
  read_attribute byte_string_value type len buf = do
    (bytes, rest) ← c.read_bytes len buf
    some (byte_string_attribute type len bytes ∷ [], consume_padding len rest)
  read_attribute uint32_value type len buf = do
    (bits, rest) ← c.read_uint32 buf
    some (uint32_attribute type bits ∷ [], rest)
  read_attribute unknown type len buf = do
    rest ← c.consume (u16 (len + padding len)) buf
    some ([], rest)

  -- Type, length and value of one attribute.
  unfoldable pub read_next : List ℕ → Option (List StunAttribute × List ℕ)
  read_next buf = do
    (type, buf1) ← c.read_uint16 buf
    (len, buf2) ← c.read_uint16 buf1
    read_attribute (value_type type) type len buf2

  -- `while (buf->Length() > 0)`, with the attributes that were read.
  unfoldable pub read_loop : ℕ → List ℕ → List StunAttribute → Parsed
  read_loop fuel [] attrs = ok attrs
  read_loop zero (b ∷ bs) attrs = out_of_rounds
  read_loop (suc fuel) (b ∷ bs) attrs = elim (read_next (b ∷ bs)) [
    | none ↦ failed
    | some (found, rest) ↦ read_loop fuel rest (attrs ++ found)
  ]

  -- The message of the fixed part, with an old client's four bytes before its transaction id.
  abbrev pub new_message : ℕ → ℕ → List ℕ → List ℕ → StunMessage
  new_message type claimed cookie id = record {
    type = type;
    claimed = claimed;
    transaction_id = if c.get_be32 cookie == magic_cookie then id else cookie ++ id;
    attrs = [];
  }

  unfoldable pub read_header : List ℕ → Option (StunMessage × List ℕ)
  read_header buf = do
    (type, buf1) ← c.read_uint16 buf
    (claimed, buf2) ← if leb 32768 type then none else c.read_uint16 buf1
    (cookie, buf3) ← c.read_bytes 4 buf2
    (id, body) ← c.read_bytes 12 buf3
    if length body == claimed then some (new_message type claimed cookie id, body) else none

  abbrev pub with_attributes : StunMessage → Parsed → Result
  with_attributes m (ok attrs) = message (record m { attrs = attrs })
  with_attributes m failed = malformed
  with_attributes m out_of_rounds = unfinished

  -- A round takes four bytes at least, so the length of the body is enough of them.
  abbrev pub read_body : Option (StunMessage × List ℕ) → Result
  read_body none = malformed
  read_body (some (m, body)) = with_attributes m (read_loop (length body) body [])

  unfoldable pub read : List ℕ → Result
  read buf = read_body (read_header buf)
