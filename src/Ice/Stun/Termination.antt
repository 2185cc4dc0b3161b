-- ===== src/Ice/Stun/Termination.antt =====
-- The loop of StunMessage::Read of src/ice/stun.cpp always ends.
use xrtc_server.Base.{
  ℕ, zero, suc, ◌+◌, ◌-◌, ◌%◌, ◌≤◌, ◌≡◌, ◌⊎◌, refl, ap, ◌∙◌, List, [], ◌∷◌, ◌++◌, Option, none,
  some, ◌==◌, length, if_keep, arith, inl, inr, Option-cases,
}
use xrtc_server.Base.Seq.{u16}
use xrtc_server.Ice.Stun.{Codec, StunAttribute, StunMessage, padding}
use xrtc_server.Ice.Stun.Reading.{
  ValueType, unknown, uint32_value, byte_string_value, value_type, Parsed, ok, failed,
  out_of_rounds, message, malformed, left_after, consume_padding, read_attribute, read_next,
  read_loop, read_header, read_body, with_attributes, read,
}

-- What a reader leaves is what it did not take.
abbrev pub Shorter {ℓ} : {A : Type ℓ} → ℕ → List ℕ → Option (A × List ℕ) → Type 0
Shorter n buf none = Unit {0}
Shorter n buf (some (a, rest)) = length rest + n ≡ length buf

abbrev pub Eaten : ℕ → List ℕ → Option (List ℕ) → Type 0
Eaten n buf none = Unit {0}
Eaten n buf (some rest) = length rest + n ≡ length buf

-- What webrtc's byte_buffer.h documents of a reader.
pub record ReaderLaws (c : Codec) : Type 0 where
  pub takes16 : (buf : List ℕ) → Shorter 2 buf (c.read_uint16 buf)
  pub takes32 : (buf : List ℕ) → Shorter 4 buf (c.read_uint32 buf)
  pub takes_bytes : (n : ℕ) (buf : List ℕ) → Shorter n buf (c.read_bytes n buf)
  pub eats : (n : ℕ) (buf : List ℕ) → Eaten n buf (c.consume n buf)

abbrev pub NotLonger {ℓ} : {A : Type ℓ} → ℕ → Option (A × List ℕ) → Type 0
NotLonger n none = Unit {0}
NotLonger n (some (a, rest)) = length rest ≤ n

module _ (c : Codec) (laws : ReaderLaws c) where
  left_after-le : (n : ℕ) (buf : List ℕ) → length (left_after c buf (c.consume n buf)) ≤ length buf
  left_after-le n buf =
      let e = laws.eats n buf in
      elim (Option-cases (c.consume n buf)) [
        | inl none_left ↦ rw none_left (omega arith)
        | inr (rest, some_left) ↦
            let l : length rest + n ≡ length buf = rw some_left at e in
            rw some_left (omega (arith, l))
      ]

  consume_padding-le : (len : ℕ) (buf : List ℕ) → length (consume_padding c len buf) ≤ length buf
  consume_padding-le len buf =
      if_keep (λ b. length b ≤ length buf) (len % 4 == 0) _ _ (omega arith)
        (left_after-le (4 - len % 4) buf)

  read_attribute-NotLonger :
      (k : ValueType) (type len : ℕ) (buf : List ℕ)
      → NotLonger (length buf) (read_attribute c k type len buf)
  unfolding read_attribute
  read_attribute-NotLonger unknown type len buf =
      (let n = u16 (len + padding len) in
        let e = laws.eats n buf in
        elim (Option-cases (c.consume n buf)) [
          | inl s ↦ rw s tt
          | inr (rest, s) ↦
              let l : length rest + n ≡ length buf = rw s at e in rw s (omega (arith, l))
        ])
  read_attribute-NotLonger uint32_value type len buf =
      (let e = laws.takes32 buf in
        elim (Option-cases (c.read_uint32 buf)) [
          | inl s ↦ rw s tt
          | inr ((v, rest), s) ↦
              let l : length rest + 4 ≡ length buf = rw s at e in rw s (omega (arith, l))
        ])
  read_attribute-NotLonger byte_string_value type len buf =
      (let e = laws.takes_bytes len buf in
        elim (Option-cases (c.read_bytes len buf)) [
          | inl s ↦ rw s tt
          | inr ((v, rest), s) ↦
              let l : length rest + len ≡ length buf = rw s at e in
              rw s (omega (arith, l, consume_padding-le len rest))
        ])

  -- An attribute takes the four bytes of its type and length at least.
  abbrev Advances : List ℕ → Option (List StunAttribute × List ℕ) → Type 0
  Advances buf none = Unit {0}
  Advances buf (some (found, rest)) = length rest + 4 ≤ length buf

  read_next-Advances : (buf : List ℕ) → Advances buf (read_next c buf)
  unfolding read_next
  read_next-Advances buf =
      let e1 = laws.takes16 buf in
      elim (Option-cases (c.read_uint16 buf)) [
        | inl s ↦ rw s tt
        | inr ((type, buf1), s) ↦
            let l1 : length buf1 + 2 ≡ length buf = rw s at e1 in
            let e2 = laws.takes16 buf1 in
            elim (Option-cases (c.read_uint16 buf1)) [
              | inl s2 ↦ rw (s, s2) tt
              | inr ((len, buf2), s2) ↦
                  let l2 : length buf2 + 2 ≡ length buf1 = rw s2 at e2 in
                  let shorter = read_attribute-NotLonger (value_type type) type len buf2 in
                  elim (Option-cases (read_attribute c (value_type type) type len buf2)) [
                    | inl s3 ↦ rw (s, s2, s3) tt
                    | inr ((found, rest), s3) ↦
                        let l3 : length rest ≤ length buf2 = rw s3 at shorter in
                        rw (s, s2, s3) (omega (arith, l1, l2, l3))
                  ]
            ]
      ]

  abbrev Ends : Parsed → Type 0
  Ends out_of_rounds = ⊥
  Ends (ok attrs) = Unit {0}
  Ends failed = Unit {0}

  read_loop-Ends :
      (fuel : ℕ) (buf : List ℕ) (attrs : List StunAttribute)
      → length buf ≤ fuel
      → Ends (read_loop c fuel buf attrs)
  unfolding read_loop
  read_loop-Ends zero [] attrs h = tt
  read_loop-Ends (suc fuel) [] attrs h = tt
  read_loop-Ends zero (b ∷ bs) attrs h = absurd (omega arith)
  read_loop-Ends (suc fuel) (b ∷ bs) attrs h =
      let step = read_next-Advances (b ∷ bs) in
      elim (Option-cases (read_next c (b ∷ bs))) [
        | inl s ↦ rw (s, read_loop) tt
        | inr ((found, rest), s) ↦
            let l : length rest + 4 ≤ suc (length bs) = rw s at step in
            rw (s, read_loop) (read_loop-Ends fuel rest (attrs ++ found) (omega (arith, l)))
      ]

  with_attributes-Ends :
      (m : StunMessage) (p : Parsed)
      → Ends p
      → ((m' : StunMessage) × (with_attributes c m p ≡ message m'))
        ⊎ (with_attributes c m p ≡ malformed)
  with_attributes-Ends m (ok attrs) e = inl (record m { attrs = attrs }, refl)
  with_attributes-Ends m failed e = inr refl
  with_attributes-Ends m out_of_rounds e = elim e [ ]

  -- Whatever the bytes, Read ends: with a message, or with a refusal.
  pub read_ends :
      (buf : List ℕ) → ((m : StunMessage) × (read c buf ≡ message m)) ⊎ (read c buf ≡ malformed)
  unfolding read
  read_ends buf = elim (Option-cases (read_header c buf)) [
    | inl s ↦ inr (ap (read_body c) s)
    | inr ((m, body), s) ↦
        (elim (with_attributes-Ends m (read_loop c (length body) body [])
          (read_loop-Ends (length body) body [] (omega arith))) [
            | inl (m', e) ↦ inl (m', ap (read_body c) s ∙ e)
            | inr e ↦ inr (ap (read_body c) s ∙ e)
          ])
  ]
