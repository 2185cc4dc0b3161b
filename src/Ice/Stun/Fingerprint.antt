-- ===== src/Ice/Stun/Fingerprint.antt =====
-- FINGERPRINT of src/ice/stun.cpp: what AddFingerprint makes, ValidateFingerprint accepts.
use xrtc_server.Base.{
  ℕ, zero, suc, ◌+◌, ◌-◌, ◌*◌, ◌/◌, ◌%◌, ◌^◌, ◌<◌, ◌≡◌, refl, sym, ap, ◌∙◌, true, List, [], ◌∷◌,
  ◌++◌, none, some, ◌==◌, length, take, drop, length-append, if◌then◌else◌, arith, inl, inr,
  Option-cases,
}
use xrtc_server.Ice.Stun.{
  Codec, StunAttribute, StunMessage, uint32_attribute, attr_fingerprint, magic_cookie, length_of,
  type_of, add_attribute, xor, write_attribute, write_attributes, write, header,
}
use mathlib.Core.List.{append_assoc}
use xrtc_server.Ice.Stun.Checks.{validate_fingerprint, fingerprint_of, add_fingerprint, xor_value}
use xrtc_server.Ice.Stun.Lengths.{
  CodecLaws, WellFormed, Totals, write_attributes-Totals, total, total_aligned, length-header,
}

take-append : (xs ys : List ℕ) (n : ℕ) → n ≡ length xs → take n (xs ++ ys) ≡ xs
take-append [] ys zero e = refl
take-append [] ys (suc n) e = absurd (omega arith)
take-append (x ∷ xs) ys zero e = absurd (omega arith)
take-append (x ∷ xs) ys (suc n) e = ap (λ t. x ∷ t) (take-append xs ys n (omega arith))

drop-append : (xs ys : List ℕ) (n : ℕ) → n ≡ length xs → drop n (xs ++ ys) ≡ ys
drop-append [] ys zero e = refl
drop-append [] ys (suc n) e = absurd (omega arith)
drop-append (x ∷ xs) ys zero e = absurd (omega arith)
drop-append (x ∷ xs) ys (suc n) e = drop-append xs ys n (omega arith)

-- Exclusive or with one number twice gives the first number back.
xor_twice : (n a b : ℕ) → a < 2 ^ n → xor n (xor n a b) b ≡ a
unfolding xor
xor_twice zero a b h = ground arith
xor_twice (suc n) a b h =
    let ih = xor_twice n (a / 2) (b / 2) (omega arith) in
    let y = xor n (a / 2) (b / 2) in
    let half : ((if a % 2 == b % 2 then 0 else 1) + 2 * y) / 2 ≡ y = ground arith in
    rw (half, ih) (ground arith)

xor-lt : (n a b : ℕ) → xor n a b < 2 ^ n
unfolding xor
xor-lt zero a b = omega arith
xor-lt (suc n) a b = ground (arith, xor-lt n (a / 2) (b / 2))

module _ (c : Codec) (laws : CodecLaws c) where
  abbrev tail_of : ℕ → List ℕ
  tail_of v = c.bytes16 attr_fingerprint ++ (c.bytes16 4 ++ (c.bytes32 v ++ []))

  length_tail : (v : ℕ) → length (tail_of v) ≡ 8
  length_tail v = omega (
    arith,
    laws.length16 attr_fingerprint,
    laws.length16 (suc 3),
    laws.length32 v,
    length-append (c.bytes16 attr_fingerprint) (c.bytes16 4 ++ (c.bytes32 v ++ [])),
    length-append (c.bytes16 4) (c.bytes32 v ++ []),
    length-append (c.bytes32 v) [],
  )

  -- The parts of the attribute, read back.
  size_of : (v : ℕ) → c.get_be16 (drop 2 (tail_of v)) ≡ 4
  size_of v =
      ap c.get_be16 (
        drop-append (c.bytes16 attr_fingerprint) (c.bytes16 4 ++ (c.bytes32 v ++ [])) 2
          (sym (laws.length16 attr_fingerprint)))
      ∙ laws.get16 4 (c.bytes32 v ++ [])

  value_of : (v : ℕ) → v < 4294967296 → c.get_be32 (drop 4 (tail_of v)) ≡ v
  value_of v h =
      let t = c.bytes16 attr_fingerprint in
      let l = c.bytes16 4 in
      let len = length-append t l in
      ap (λ z. c.get_be32 (drop 4 z)) (sym (append_assoc t l (c.bytes32 v ++ [])))
      ∙ ap c.get_be32 (
          drop-append (t ++ l) (c.bytes32 v ++ []) 4
            (omega (arith, len, laws.length16 attr_fingerprint, laws.length16 (suc 3))))
      ∙ laws.get32 v []
      ∙ omega arith

  -- The magic cookie of a written message.
  cookie_of :
      (m : StunMessage) (rest : List ℕ) → c.get_be32 (drop 4 (header c m ++ rest)) ≡ magic_cookie
  cookie_of m rest =
      let t = c.bytes16 m.type in
      let l = c.bytes16 m.claimed in
      let k = c.bytes32 magic_cookie in
      let len = length-append t l in
      let regroup : header c m ++ rest ≡ (t ++ l) ++ (k ++ (m.transaction_id ++ rest)) =
        append_assoc t (l ++ (k ++ m.transaction_id)) rest
        ∙ ap (λ z. t ++ z) (append_assoc l (k ++ m.transaction_id) rest)
        ∙ ap (λ z. t ++ (l ++ z)) (append_assoc k m.transaction_id rest)
        ∙ sym (append_assoc t l (k ++ (m.transaction_id ++ rest))) in
      ap (λ z. c.get_be32 (drop 4 z)) regroup
      ∙ ap c.get_be32 (
          drop-append (t ++ l) (k ++ (m.transaction_id ++ rest)) 4
            (omega (arith, len, laws.length16 m.type, laws.length16 m.claimed)))
      ∙ laws.get32 magic_cookie (m.transaction_id ++ rest)

  write_attributes-snoc :
      (attrs : List StunAttribute) (v : ℕ) (body : List ℕ)
      → write_attributes c attrs ≡ some body
      → write_attributes c (attrs ++ (uint32_attribute attr_fingerprint v ∷ []))
        ≡ some (body ++ tail_of v)
  unfolding write_attributes write_attribute
  write_attributes-snoc [] v body e = (let same : [] ≡ body = cc in rw (← same) refl)
  write_attributes-snoc (a ∷ others) v body e =
      let t = c.bytes16 (type_of a) in
      let l = c.bytes16 (length_of a) in
      elim (Option-cases (write_attribute c a)) [
        | inl n ↦ (let bad : none ≡ some body = rw n at e in cc)
        | inr (bs, n) ↦ elim (Option-cases (write_attributes c others)) [
          | inl n' ↦ (let bad : none ≡ some body = rw (n, n') at e in cc)
          | inr (rest, n') ↦
              let whole : some (t ++ (l ++ (bs ++ rest))) ≡ some body = rw (n, n') at e in
              let same : t ++ (l ++ (bs ++ rest)) ≡ body = cc in
              rw (n, write_attributes-snoc others v rest n', ← same)
                (ap some (
                  ap (λ z. t ++ (l ++ z)) (sym (append_assoc bs rest (tail_of v)))
                  ∙ ap (λ z. t ++ z) (sym (append_assoc l (bs ++ rest) (tail_of v)))
                  ∙ sym (append_assoc t (l ++ (bs ++ rest)) (tail_of v))))
        ]
      ]

  -- Any buffer of a fixed part with the magic cookie, an aligned body and the attribute passes when
  -- the value is that of the bytes before it.
  validate_signed :
      (crc : List ℕ → ℕ) (m : StunMessage) (body : List ℕ)
      → length m.transaction_id ≡ 12
      → length body % 4 ≡ 0
      → crc (header c m ++ body) < 4294967296
      → validate_fingerprint c crc
          ((header c m ++ body) ++ tail_of (xor 32 (crc (header c m ++ body)) xor_value))
        ≡ true
  unfolding validate_fingerprint
  validate_signed crc m body id aligned small =
      let front = header c m ++ body in
      let v = xor 32 (crc front) xor_value in
      let lh = length-header c laws m id in
      let lf = length-append (header c m) body in
      let lt = length_tail v in
      let le = length-append front (tail_of v) in
      let n : length (front ++ tail_of v) - 8 ≡ length front = omega arith in
      let d : drop (length (front ++ tail_of v) - 8) (front ++ tail_of v) ≡ tail_of v =
        drop-append front (tail_of v) _ n in
      let t : take (length (front ++ tail_of v) - 8) (front ++ tail_of v) ≡ front =
        take-append front (tail_of v) _ n in
      let cookie = cookie_of m (body ++ tail_of v) in
      let where_cookie : drop 4 (front ++ tail_of v) ≡ drop 4 (header c m ++ (body ++ tail_of v)) =
        ap (drop 4) (append_assoc (header c m) body (tail_of v)) in
      let q3 : c.get_be32 (drop 4 (front ++ tail_of v)) ≡ magic_cookie =
        ap c.get_be32 where_cookie ∙ cookie in
      let q4 : c.get_be16 (tail_of v) ≡ attr_fingerprint =
        laws.get16 attr_fingerprint (c.bytes16 4 ++ (c.bytes32 v ++ [])) in
      let q6 : xor 32 (c.get_be32 (drop 4 (tail_of v))) xor_value ≡ crc front =
        ap (λ w. xor 32 w xor_value) (value_of v (xor-lt 32 (crc front) xor_value))
        ∙ xor_twice 32 (crc front) xor_value small in
      rw (d, t, q3, q4, size_of v, q6) (ground arith)

  module _ (crc : List ℕ → ℕ) (m : StunMessage) (body : List ℕ)
      (written : write_attributes c m.attrs ≡ some body) where
    -- The message with the attribute; its fixed part does not depend on the value.
    abbrev with_value : ℕ → StunMessage
    with_value v = add_attribute m (uint32_attribute attr_fingerprint v)

    abbrev front : List ℕ
    front = header c (with_value 0) ++ body

    write-with_value : (v : ℕ) → write c (with_value v) ≡ some (front ++ tail_of v)
    unfolding write add_attribute
    write-with_value v =
        rw (write_attributes-snoc m.attrs v body written)
          (ap some (sym (append_assoc (header c (with_value 0)) body (tail_of v))))

    fingerprint_of_lem : fingerprint_of c crc m ≡ some (xor 32 (crc front) xor_value)
    unfolding fingerprint_of
    fingerprint_of_lem =
        let len = length-append front (tail_of 0) in
        let n : length (front ++ tail_of 0) - 8 ≡ length front =
          omega (arith, len, length_tail 0) in
        let t : take (length (front ++ tail_of 0) - 8) (front ++ tail_of 0) ≡ front =
          take-append front (tail_of 0) _ n in
        rw (write-with_value 0, t) refl

    add_fingerprint_lem :
        add_fingerprint c crc m ≡ (with_value (xor 32 (crc front) xor_value), true)
    unfolding add_fingerprint
    add_fingerprint_lem = rw fingerprint_of_lem refl

  -- A well-formed message that can be written can be given its fingerprint, can then be written, and
  -- the receiver's check accepts the bytes.
  pub add_fingerprint-validates :
      (crc : List ℕ → ℕ) (m : StunMessage) (buf : List ℕ)
      → ((bs : List ℕ) → crc bs < 4294967296)
      → WellFormed m
      → write c m ≡ some buf
      → ((add_fingerprint c crc m).1 ≡ true)
        × ((signed : List ℕ) × (write c (add_fingerprint c crc m).0 ≡ some signed)
            × (validate_fingerprint c crc signed ≡ true))
  unfolding write add_attribute
  add_fingerprint-validates crc m buf small w e = elim (Option-cases (write_attributes c m.attrs)) [
    | inl n ↦ (let bad : none ≡ some buf = rw n at e in cc)
    | inr (body, n) ↦
        let done = add_fingerprint_lem crc m body n in
        let v = xor 32 (crc (front crc m body n)) xor_value in
        let totals : Totals c laws (total m.attrs) (some body) =
          rw n at (write_attributes-Totals c laws m.attrs w.sized) in
        let aligned : length body % 4 ≡ 0 = omega (arith, totals, total_aligned m.attrs) in
        rw done (
          refl,
          (
            front crc m body n ++ tail_of v,
            write-with_value crc m body n v,
            validate_signed crc (with_value crc m body n 0) body w.id aligned
                (small (front crc m body n)),
          ),
        )
  ]
