-- ===== src/Ice/Stun/Lengths.antt =====
-- The length field of src/ice/stun.cpp and the bytes that Write makes.
use xrtc_server.Base.{
  ℕ, zero, suc, ◌+◌, ◌-◌, ◌*◌, ◌%◌, ◌≡◌, refl, ap, List, [], ◌∷◌, ◌++◌, Option, none, some, length,
  take, replicate, length-append, length-replicate, All, All-append, arith, inl, inr, Option-cases,
}
use xrtc_server.Base.Seq.{u16}
use xrtc_server.Ice.Stun.{
  Codec, SocketAddress, Family, inet, inet6, unspec, StunAttribute, StunMessage, uint32_attribute,
  uint64_attribute, byte_string_attribute, error_code_attribute, address_attribute,
  xor_address_attribute, size_of_family, length_of, type_of, padding, add_attribute, xor, xor_bytes,
  write_address, write_xor_address, write_attribute, write_attributes, write, header, magic_cookie,
}

-- What webrtc's headers document of network byte order.
pub record CodecLaws (c : Codec) : Type 0 where
  pub length16 : (n : ℕ) → length (c.bytes16 n) ≡ 2
  pub length32 : (n : ℕ) → length (c.bytes32 n) ≡ 4
  pub length64 : (n : ℕ) → length (c.bytes64 n) ≡ 8
  pub get16 : (n : ℕ) (rest : List ℕ) → c.get_be16 (c.bytes16 n ++ rest) ≡ n % 65536
  pub get32 : (n : ℕ) (rest : List ℕ) → c.get_be32 (c.bytes32 n ++ rest) ≡ n % 4294967296

abbrev pub SizedAddress : SocketAddress → Type 0
SizedAddress a = (length a.ipv4_address ≡ 4) × (length a.ipv6_address ≡ 16)

-- An attribute claims the length that its value has.
abbrev pub Sized : StunAttribute → Type 0
Sized (uint32_attribute type bits) = Unit {0}
Sized (uint64_attribute type bits) = Unit {0}
Sized (byte_string_attribute type claimed bytes) = claimed ≡ length bytes
Sized (error_code_attribute type claimed class number reason) = claimed ≡ 4 + length reason
Sized (address_attribute type claimed a) = (claimed ≡ size_of_family a.family) × SizedAddress a
Sized (xor_address_attribute type claimed a) = (claimed ≡ size_of_family a.family) × SizedAddress a

-- The bytes of the attributes with their headers and paddings.
abbrev pub total : List StunAttribute → ℕ
total [] = 0
total (a ∷ others) = (length_of a + padding (length_of a) + 4) + total others

pub record WellFormed (m : StunMessage) : Type 0 where
  pub sized : All Sized m.attrs
  pub id : length m.transaction_id ≡ 12
  pub claimed : m.claimed ≡ u16 (total m.attrs)

total-append : (xs ys : List StunAttribute) → total (xs ++ ys) ≡ total xs + total ys
total-append [] ys = omega arith
total-append (x ∷ xs) ys = omega (arith, total-append xs ys)

pub total_aligned : (xs : List StunAttribute) → total xs % 4 ≡ 0
total_aligned [] = refl
total_aligned (x ∷ xs) = ground (arith, total_aligned xs)

-- Adding an attribute of the right length keeps the length field equal to what Write will make.
pub add_attribute-WellFormed :
    (m : StunMessage) (a : StunAttribute) → WellFormed m → Sized a → WellFormed (add_attribute m a)
unfolding add_attribute
add_attribute-WellFormed m a w s = record {
  sized = All-append Sized m.attrs (a ∷ []) w.sized (s, tt);
  id = w.id;
  claimed = let k = w.claimed in omega (arith, k, total-append m.attrs (a ∷ []));
}

take_all : {A : Type 0} (xs : List A) (n : ℕ) → n ≡ length xs → take n xs ≡ xs
take_all [] zero e = refl
take_all [] (suc n) e = absurd (omega arith)
take_all (x ∷ xs) zero e = absurd (omega arith)
take_all (x ∷ xs) (suc n) e = ap (λ t. x ∷ t) (take_all xs n (omega arith))

length-xor_bytes : (xs ks : List ℕ) → length (xor_bytes xs ks) ≡ length xs
unfolding xor_bytes
length-xor_bytes [] ks = refl
length-xor_bytes (x ∷ xs) [] = refl
length-xor_bytes (x ∷ xs) (k ∷ ks) = ap suc (length-xor_bytes xs ks)

module _ (c : Codec) (laws : CodecLaws c) where
  -- The value of an attribute fills its length up to a multiple of four, if it can be written.
  abbrev pub Fills : ℕ → Option (List ℕ) → Type 0
  Fills n none = Unit {0}
  Fills n (some bs) = length bs ≡ n + padding n

  write_address-Fills :
      (f : Family) (a : SocketAddress)
      → SizedAddress a
      → Fills (size_of_family f) (write_address c f a)
  write_address-Fills inet a (v4, v6) =
      omega (arith, v4, laws.length16 a.port, length-append (c.bytes16 a.port) a.ipv4_address)
  write_address-Fills inet6 a (v4, v6) =
      omega (arith, v6, laws.length16 a.port, length-append (c.bytes16 a.port) a.ipv6_address)
  write_address-Fills unspec a (v4, v6) = tt

  write_xor_address-Fills :
      (f : Family) (a : SocketAddress)
      → SizedAddress a
      → Fills (size_of_family f) (write_xor_address c f a)
  write_xor_address-Fills inet a (v4, v6) =
      let xored = xor_bytes a.ipv4_address (33 ∷ 18 ∷ 164 ∷ 66 ∷ []) in
      omega (
        arith,
        v4,
        laws.length16 (xor 16 a.port 8466),
        length-append (c.bytes16 (xor 16 a.port 8466)) xored,
        length-xor_bytes a.ipv4_address (33 ∷ 18 ∷ 164 ∷ 66 ∷ []),
      )
  write_xor_address-Fills inet6 a (v4, v6) = tt
  write_xor_address-Fills unspec a (v4, v6) = tt

  length_padded :
      (bs : List ℕ) (n : ℕ) → n ≡ length bs → length (bs ++ replicate (padding n) 0) ≡ n + padding n
  length_padded bs n e =
      let zeroes : List ℕ = replicate (padding n) 0 in
      let z : length zeroes ≡ padding n = length-replicate (padding n) 0 in
      omega (arith, e, z, length-append bs zeroes)

  write_attribute-Fills : (a : StunAttribute) → Sized a → Fills (length_of a) (write_attribute c a)
  unfolding write_attribute
  write_attribute-Fills (uint32_attribute type bits) s = omega (arith, laws.length32 bits)
  write_attribute-Fills (uint64_attribute type bits) s = omega (arith, laws.length64 bits)
  write_attribute-Fills (byte_string_attribute type claimed bytes) s =
      rw (take_all bytes claimed s) (length_padded bytes claimed s)
  write_attribute-Fills (error_code_attribute type claimed class number reason) s =
      let code = c.bytes32 (class * 256 + number) in
      let zeroes : List ℕ = replicate (padding claimed) 0 in
      let z : length zeroes ≡ padding claimed = length-replicate (padding claimed) 0 in
      omega (
        arith,
        s,
        z,
        laws.length32 (class * 256 + number),
        length-append code (reason ++ zeroes),
        length-append reason zeroes,
      )
  write_attribute-Fills (address_attribute type claimed a) (e, s) =
      rw e (write_address-Fills a.family a s)
  write_attribute-Fills (xor_address_attribute type claimed a) (e, s) =
      rw e (write_xor_address-Fills a.family a s)

  -- The attributes as written have the total length.
  abbrev pub Totals : ℕ → Option (List ℕ) → Type 0
  Totals n none = Unit {0}
  Totals n (some bs) = length bs ≡ n

  pub write_attributes-Totals :
      (attrs : List StunAttribute)
      → All Sized attrs
      → Totals (total attrs) (write_attributes c attrs)
  unfolding write_attributes
  write_attributes-Totals [] all = refl
  write_attributes-Totals (a ∷ others) (s, all) =
      let value = write_attribute-Fills a s in
      let ih = write_attributes-Totals others all in
      elim (Option-cases (write_attribute c a)) [
        | inl e ↦ rw e tt
        | inr (bs, e) ↦ elim (Option-cases (write_attributes c others)) [
          | inl e' ↦ rw (e, e') tt
          | inr (rest, e') ↦
              let v : length bs ≡ length_of a + padding (length_of a) = rw e at value in
              let r : length rest ≡ total others = rw e' at ih in
              rw (e, e')
                (omega (
                  arith,
                  v,
                  r,
                  laws.length16 (type_of a),
                  laws.length16 (length_of a),
                  length-append (c.bytes16 (type_of a)) (c.bytes16 (length_of a) ++ (bs ++ rest)),
                  length-append (c.bytes16 (length_of a)) (bs ++ rest),
                  length-append bs rest,
                ))
        ]
      ]

  pub length-header : (m : StunMessage) → length m.transaction_id ≡ 12 → length (header c m) ≡ 20
  length-header m e = omega (
    arith,
    e,
    laws.length16 m.type,
    laws.length16 m.claimed,
    laws.length32 magic_cookie,
    length-append (c.bytes16 m.type)
        (c.bytes16 m.claimed ++ (c.bytes32 magic_cookie ++ m.transaction_id)),
    length-append (c.bytes16 m.claimed) (c.bytes32 magic_cookie ++ m.transaction_id),
    length-append (c.bytes32 magic_cookie) m.transaction_id,
  )

  -- The length field of a well-formed message is the number of bytes that Write makes after the
  -- fixed twenty, as a 16-bit number.
  pub write-length :
      (m : StunMessage) (buf : List ℕ)
      → WellFormed m
      → write c m ≡ some buf
      → (length buf ≡ 20 + total m.attrs) × (m.claimed ≡ u16 (length buf - 20))
  unfolding write
  write-length m buf w e =
      let body = write_attributes-Totals m.attrs w.sized in
      let h = length-header m w.id in
      elim (Option-cases (write_attributes c m.attrs)) [
        | inl n ↦ (let bad : none ≡ some buf = rw n at e in cc)
        | inr (bs, n) ↦
            let r : length bs ≡ total m.attrs = rw n at body in
            let whole : some (header c m ++ bs) ≡ some buf = rw n at e in
            let same : header c m ++ bs ≡ buf = cc in
            let len = length-append (header c m) bs in
            let k = w.claimed in
            let l : length buf ≡ 20 + total m.attrs = rw (← same) (omega (arith, r, h, len)) in
            (l, omega (arith, k, l))
      ]
