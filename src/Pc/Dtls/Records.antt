-- ===== src/Pc/Dtls/Records.antt =====
-- The loop of HandleDtlsPacket of src/pc/dtls_transport.cpp against the form of a DTLS packet.
use xrtc_server.Base.{
  ℕ, zero, suc, ◌+◌, ◌*◌, ◌≤◌, ◌<◌, ◌≡◌, refl, ◌↔◌, true, List, [], ◌∷◌, ◌++◌, length, take, drop,
  ◌==◌, arith, inl, inr, Bool-cases, length-append, length-take, sym, ap, subst, ◌∙◌,
}
use xrtc_server.Rtp.Histogram.{at}
use xrtc_server.Pc.Dtls.{whole_records}

-- Thirteen bytes of header, of which the last two give the number of bytes that follow.
abbrev pub IsRecord : List ℕ → Type 0
IsRecord r = (13 ≤ length r) × (length r ≡ 13 + (at r 11 * 256 + at r 12))

-- Records, one after the other.
pub data IsRecords : List ℕ → Type 0 where
  no_records : (bytes : List ℕ) → bytes ≡ [] → IsRecords bytes
  record_first :
      (bytes r rest : List ℕ) → bytes ≡ r ++ rest → IsRecord r → IsRecords rest → IsRecords bytes

at-append : (xs ys : List ℕ) (i : ℕ) → i < length xs → at (xs ++ ys) i ≡ at xs i
at-append [] ys i h = absurd (omega arith)
at-append (x ∷ xs) ys zero h = refl
at-append (x ∷ xs) ys (suc i) h = at-append xs ys i (omega arith)

drop-append : (xs ys : List ℕ) (n : ℕ) → n ≡ length xs → drop n (xs ++ ys) ≡ ys
drop-append [] ys zero h = refl
drop-append [] ys (suc n) h = absurd (omega arith)
drop-append (x ∷ xs) ys zero h = absurd (omega arith)
drop-append (x ∷ xs) ys (suc n) h = drop-append xs ys n (omega arith)

take-append-drop : (n : ℕ) (xs : List ℕ) → xs ≡ take n xs ++ drop n xs
take-append-drop zero xs = refl
take-append-drop (suc n) [] = refl
take-append-drop (suc n) (x ∷ xs) = ap (λ (l : List ℕ). x ∷ l) (take-append-drop n xs)

at-take : (n : ℕ) (xs : List ℕ) (i : ℕ) → i < n → at (take n xs) i ≡ at xs i
at-take zero xs i h = absurd (omega arith)
at-take (suc n) [] i h = refl
at-take (suc n) (x ∷ xs) zero h = refl
at-take (suc n) (x ∷ xs) (suc i) h = at-take n xs i (omega arith)

abbrev record_size : List ℕ → ℕ
record_size bytes = 13 + (at bytes 11 * 256 + at bytes 12)

-- A round of the loop takes a record off.
round :
    (fuel : ℕ) (bytes : List ℕ)
    → 1 ≤ length bytes
    → (whole_records (suc fuel) bytes ≡ true) ↔ (
        (record_size bytes ≤ length bytes)
        × (whole_records fuel (drop (record_size bytes) bytes) ≡ true))
unfolding whole_records
round fuel bytes h = ground arith

empty_of_length : (xs : List ℕ) → length xs ≡ 0 → xs ≡ []
empty_of_length [] h = refl
empty_of_length (x ∷ xs) h = absurd (omega arith)

whole-IsRecords : (fuel : ℕ) (bytes : List ℕ) → whole_records fuel bytes ≡ true → IsRecords bytes
unfolding whole_records
whole-IsRecords zero bytes h = no_records bytes (empty_of_length bytes (ground arith))
whole-IsRecords (suc fuel) bytes h = elim (Bool-cases (length bytes == 0)) [
  | inl e ↦ no_records bytes (empty_of_length bytes (ground arith))
  | inr e ↦
      let n = record_size bytes in
      let (fits, rest) = (round fuel bytes (ground arith)).0 h in
      let size = length-take n bytes in
      let a = at-take n bytes 11 (omega arith) in
      let b = at-take n bytes 12 (omega arith) in
      record_first bytes (take n bytes) (drop n bytes) (take-append-drop n bytes)
        (omega arith, omega arith) (whole-IsRecords fuel (drop n bytes) rest)
]

IsRecords-whole :
    (fuel : ℕ) (bytes : List ℕ)
    → length bytes ≤ fuel
    → IsRecords bytes
    → whole_records fuel bytes ≡ true
unfolding whole_records
IsRecords-whole zero bytes h (no_records _ e) = rw e refl
IsRecords-whole (suc fuel) bytes h (no_records _ e) = rw e refl
IsRecords-whole zero bytes h (record_first _ r rest e is_record more) =
    absurd (let l = ap length e in omega (arith, is_record.0, length-append r rest))
IsRecords-whole (suc fuel) bytes h (record_first _ r rest e is_record more) =
    let l = ap length e in
    let both = length-append r rest in
    let (long, sized) = is_record in
    let a : at bytes 11 ≡ at r 11 =
      ap (λ (b : List ℕ). at b 11) e ∙ at-append r rest 11 (omega arith) in
    let b : at bytes 12 ≡ at r 12 =
      ap (λ (b : List ℕ). at b 12) e ∙ at-append r rest 12 (omega arith) in
    let left : drop (record_size bytes) bytes ≡ rest =
      ap (drop (record_size bytes)) e ∙ drop-append r rest (record_size bytes) (omega arith) in
    (round fuel bytes (omega arith)).1 (
      omega arith,
      subst (λ (b : List ℕ). whole_records fuel b ≡ true) (sym left)
          (IsRecords-whole fuel rest (omega arith) more),
    )

-- HandleDtlsPacket takes a packet exactly when its bytes are whole records, one after the other: the
-- rounds that it is given are enough.
pub whole_records_iff :
    (packet : List ℕ) → (whole_records (length packet) packet ≡ true) ↔ IsRecords packet
whole_records_iff packet =
    (whole-IsRecords (length packet) packet, IsRecords-whole (length packet) packet (omega arith))
