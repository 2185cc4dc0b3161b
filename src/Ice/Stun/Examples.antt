-- ===== src/Ice/Stun/Examples.antt =====
-- A binding response in network byte order, and the properties at it.
use xrtc_server.Base.{
  ◌⊎◌, inl, inr, Option-cases, ℕ, ◌+◌, ◌-◌, ◌*◌, ◌/◌, ◌%◌, ◌<◌, ◌≡◌, refl, true, List, [], ◌∷◌,
  ◌++◌, zero, suc, Option, none, some, length, replicate, arith,
}
use xrtc_server.Base.Seq.{u16}
use xrtc_server.Ice.Stun.{
  Codec, StunMessage, new_byte_string, attr_username, write, write_attributes, write_attribute,
}
use xrtc_server.Ice.Stun.Checks.{validate_fingerprint, add_fingerprint}
use xrtc_server.Ice.Stun.Lengths.{CodecLaws, WellFormed, total, write-length}
use xrtc_server.Ice.Stun.Reading.{message, malformed, read}
use xrtc_server.Ice.Stun.Termination.{ReaderLaws, Shorter, Eaten, read_ends}
use xrtc_server.Ice.Stun.Fingerprint.{add_fingerprint-validates}

abbrev be16 : ℕ → List ℕ
be16 n = (n / 256 % 256) ∷ (n % 256) ∷ []

abbrev be32 : ℕ → List ℕ
be32 n = (n / 16777216 % 256) ∷ (n / 65536 % 256) ∷ (n / 256 % 256) ∷ (n % 256) ∷ []

abbrev first16 : List ℕ → Option (ℕ × List ℕ)
first16 (a ∷ b ∷ rest) = some (a * 256 + b, rest)
first16 (a ∷ []) = none
first16 [] = none

abbrev first32 : List ℕ → Option (ℕ × List ℕ)
first32 (a ∷ b ∷ x ∷ y ∷ rest) = some (a * 16777216 + b * 65536 + x * 256 + y, rest)
first32 _ = none

abbrev value_of : Option (ℕ × List ℕ) → ℕ
value_of none = 0
value_of (some (n, rest)) = n

abbrev split_at : ℕ → List ℕ → Option (List ℕ × List ℕ)
split_at zero bs = some ([], bs)
split_at (suc n) [] = none
split_at (suc n) (b ∷ bs) = elim (split_at n bs) [ none ↦ none | some (xs, ys) ↦ some (b ∷ xs, ys) ]

abbrev left_of : Option (List ℕ × List ℕ) → Option (List ℕ)
left_of none = none
left_of (some (xs, ys)) = some ys

abbrev network : Codec
network = record {
  bytes16 = be16;
  bytes32 = be32;
  bytes64 = λ n. be32 (n / 4294967296) ++ be32 n;
  read_uint16 = first16;
  read_uint32 = first32;
  read_bytes = split_at;
  consume = λ n bs. left_of (split_at n bs);
  get_be16 = λ bs. value_of (first16 bs);
  get_be32 = λ bs. value_of (first32 bs);
}

network-CodecLaws : CodecLaws network
network-CodecLaws = record {
  length16 = λ n. refl;
  length32 = λ n. refl;
  length64 = λ n. refl;
  get16 = λ n rest. omega arith;
  get32 = λ n rest. omega arith;
}

-- A stand-in for the CRC.
abbrev checksum : List ℕ → ℕ
checksum [] = 7
checksum (b ∷ bs) = (b + 31 * checksum bs) % 4294967296

checksum-lt : (bs : List ℕ) → checksum bs < 4294967296
checksum-lt [] = omega arith
checksum-lt (b ∷ bs) = omega arith

-- A response for the user "bob", whose name is padded to four bytes.
abbrev response : StunMessage
response = record {
  type = 257;
  claimed = 8;
  transaction_id = replicate 12 48;
  attrs = new_byte_string attr_username (98 ∷ 111 ∷ 98 ∷ []) ∷ [];
}

response-WellFormed : WellFormed response
response-WellFormed = record { sized = (refl, tt); id = refl; claimed = refl }

abbrev response_bytes : List ℕ
response_bytes =
    1 ∷ 1 ∷ 0 ∷ 8 ∷ 33 ∷ 18 ∷ 164 ∷ 66 ∷ 48 ∷ 48 ∷ 48 ∷ 48 ∷ 48 ∷ 48 ∷ 48 ∷ 48 ∷ 48 ∷ 48 ∷ 48 ∷ 48
    ∷ 0 ∷ 6 ∷ 0 ∷ 3 ∷ 98 ∷ 111 ∷ 98 ∷ 0 ∷ []

response_written : write network response ≡ some response_bytes
unfolding write write_attributes write_attribute
response_written = refl

add_fingerprint-validates_example :
    ((add_fingerprint network checksum response).1 ≡ true)
    × ((signed : List ℕ) × (write network (add_fingerprint network checksum response).0
          ≡ some signed)
        × (validate_fingerprint network checksum signed ≡ true))
add_fingerprint-validates_example =
    add_fingerprint-validates network network-CodecLaws checksum response response_bytes checksum-lt
      response-WellFormed response_written

write-length_example :
    (length response_bytes ≡ 20 + total response.attrs)
    × (response.claimed ≡ u16 (length response_bytes - 20))
write-length_example =
    write-length network network-CodecLaws response response_bytes response-WellFormed
      response_written

first16-Shorter : (buf : List ℕ) → Shorter 2 buf (first16 buf)
first16-Shorter [] = tt
first16-Shorter (a ∷ []) = tt
first16-Shorter (a ∷ b ∷ rest) = omega arith

first32-Shorter : (buf : List ℕ) → Shorter 4 buf (first32 buf)
first32-Shorter [] = tt
first32-Shorter (a ∷ []) = tt
first32-Shorter (a ∷ b ∷ []) = tt
first32-Shorter (a ∷ b ∷ x ∷ []) = tt
first32-Shorter (a ∷ b ∷ x ∷ y ∷ rest) = omega arith

split_at-Shorter : (n : ℕ) (buf : List ℕ) → Shorter n buf (split_at n buf)
split_at-Shorter zero buf = omega arith
split_at-Shorter (suc n) [] = tt
split_at-Shorter (suc n) (b ∷ bs) =
    let ih = split_at-Shorter n bs in
    elim (Option-cases (split_at n bs)) [
      | inl s ↦ rw s tt
      | inr ((xs, ys), s) ↦
          let l : length ys + n ≡ length bs = rw s at ih in rw s (omega (arith, l))
    ]

left_of-Eaten :
    (n : ℕ) (buf : List ℕ) (o : Option (List ℕ × List ℕ))
    → Shorter n buf o
    → Eaten n buf (left_of o)
left_of-Eaten n buf none h = tt
left_of-Eaten n buf (some (xs, ys)) h = h

network-ReaderLaws : ReaderLaws network
network-ReaderLaws = record {
  takes16 = first16-Shorter;
  takes32 = first32-Shorter;
  takes_bytes = split_at-Shorter;
  eats = λ n buf. left_of-Eaten n buf (split_at n buf) (split_at-Shorter n buf);
}

read_ends_example :
    ((m : StunMessage) × (read network response_bytes ≡ message m))
    ⊎ (read network response_bytes ≡ malformed)
read_ends_example = read_ends network network-ReaderLaws response_bytes
