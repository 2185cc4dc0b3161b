-- ===== src/Rtp/Nack/Entries.antt =====
-- The map of missing packets of nack_requester.cpp: lookups after each change, and its size.
use xrtc_server.Base.{
  ℕ, ◌+◌, ◌≤◌, ◌≡◌, refl, ◌∙◌, false, List, [], ◌∷◌, none, some, ◌==◌, ==_iff, length, is_some, All,
  if◌then◌else◌, arith, inl, inr, Bool-cases, Option-cases,
}
use xrtc_server.Base.Seq.{SeqNum}
use xrtc_server.Rtp.Nack.{
  NackInfo, find_nack, erase_nack, replace_nack, insert_nack, put_nack, drop_older,
}

-- No two entries have one key.
abbrev pub Unique : List NackInfo → Type 0
Unique [] = Unit {0}
Unique (x ∷ xs) = (find_nack xs x.seq_num ≡ none) × Unique xs

find-replace_nack :
    (xs : List NackInfo) (info : NackInfo) (seq : ℕ)
    → find_nack (replace_nack xs info) seq ≡ (
        if info.seq_num == seq
        then (if is_some (find_nack xs seq) then some info else none)
        else find_nack xs seq)
unfolding find_nack replace_nack
find-replace_nack [] info seq = ground arith
find-replace_nack (x ∷ xs) info seq = ground (arith, find-replace_nack xs info seq)

find-insert_nack :
    (c : SeqNum) (xs : List NackInfo) (info : NackInfo) (seq : ℕ)
    → find_nack xs info.seq_num ≡ none
    → find_nack (insert_nack c xs info) seq
      ≡ (if info.seq_num == seq then some info else find_nack xs seq)
unfolding find_nack insert_nack
find-insert_nack c [] info seq e = refl
find-insert_nack c (x ∷ xs) info seq e = ground (arith, find-insert_nack c xs info seq)

-- Looking up after `nack_list_[seq] = info`.
pub find-put_nack :
    (c : SeqNum) (xs : List NackInfo) (info : NackInfo) (seq : ℕ)
    → find_nack (put_nack c xs info) seq
      ≡ (if info.seq_num == seq then some info else find_nack xs seq)
unfolding put_nack
find-put_nack c xs info seq = elim (Option-cases (find_nack xs info.seq_num)) [
  | inl e ↦ rw e (find-insert_nack c xs info seq e)
  | inr (x, e) ↦ rw e (
      find-replace_nack xs info seq ∙ elim (Bool-cases (info.seq_num == seq)) [
        | inr f ↦ rw f refl
        | inl t ↦
            let d : find_nack xs seq ≡ some x = rw ((==_iff info.seq_num seq).0 t) at e in
            rw (t, d) refl
      ])
]

replace_nack-Unique :
    (xs : List NackInfo) (info : NackInfo) → Unique xs → Unique (replace_nack xs info)
unfolding replace_nack
replace_nack-Unique [] info u = tt
replace_nack-Unique (x ∷ xs) info (new, u) = elim (Bool-cases (x.seq_num == info.seq_num)) [
  | inl t ↦ rw t (let d = (==_iff x.seq_num info.seq_num).0 t in rw (← d) new, u)
  | inr f ↦
      rw f (ground (arith, find-replace_nack xs info x.seq_num), replace_nack-Unique xs info u)
]

insert_nack-Unique :
    (c : SeqNum) (xs : List NackInfo) (info : NackInfo)
    → find_nack xs info.seq_num ≡ none
    → Unique xs
    → Unique (insert_nack c xs info)
unfolding insert_nack find_nack
insert_nack-Unique c [] info e u = (refl, tt)
insert_nack-Unique c (x ∷ xs) info e (new, u) = elim (Bool-cases (x.seq_num == info.seq_num)) [
  | inl t ↦ (let bad : some x ≡ none = rw t at e in cc)
  | inr f ↦
      let e' : find_nack xs info.seq_num ≡ none = rw f at e in
      elim (Bool-cases (c.ahead_of info.seq_num x.seq_num)) [
        | inl t ↦ rw t (
          ground (arith, find-insert_nack c xs info x.seq_num),
          insert_nack-Unique c xs info e' u,
        )
        | inr g ↦ rw g (e, (new, u))
      ]
]

pub put_nack-Unique :
    (c : SeqNum) (xs : List NackInfo) (info : NackInfo) → Unique xs → Unique (put_nack c xs info)
unfolding put_nack
put_nack-Unique c xs info u = elim (Option-cases (find_nack xs info.seq_num)) [
  | inl e ↦ rw e (insert_nack-Unique c xs info e u)
  | inr (x, e) ↦ rw e (replace_nack-Unique xs info u)
]

length-replace_nack :
    (xs : List NackInfo) (info : NackInfo) → length (replace_nack xs info) ≡ length xs
unfolding replace_nack
length-replace_nack [] info = refl
length-replace_nack (x ∷ xs) info = ground (arith, length-replace_nack xs info)

length-insert_nack :
    (c : SeqNum) (xs : List NackInfo) (info : NackInfo)
    → length (insert_nack c xs info) ≡ length xs + 1
unfolding insert_nack
length-insert_nack c [] info = omega arith
length-insert_nack c (x ∷ xs) info = ground (arith, length-insert_nack c xs info)

pub length-put_nack :
    (c : SeqNum) (xs : List NackInfo) (info : NackInfo)
    → length (put_nack c xs info) ≤ length xs + 1
unfolding put_nack
length-put_nack c xs info =
    ground (arith, length-insert_nack c xs info, length-replace_nack xs info)

module _ (P : NackInfo → Type 0) where
  All-replace_nack :
      (xs : List NackInfo) (info : NackInfo) → All P xs → P info → All P (replace_nack xs info)
  unfolding replace_nack
  All-replace_nack [] info all p = tt
  All-replace_nack (x ∷ xs) info (a, all) p = elim (Bool-cases (x.seq_num == info.seq_num)) [
    | inl t ↦ rw t (p, all)
    | inr f ↦ rw f (a, All-replace_nack xs info all p)
  ]

  All-insert_nack :
      (c : SeqNum) (xs : List NackInfo) (info : NackInfo)
      → All P xs
      → P info
      → All P (insert_nack c xs info)
  unfolding insert_nack
  All-insert_nack c [] info all p = (p, tt)
  All-insert_nack c (x ∷ xs) info (a, all) p =
      elim (Bool-cases (c.ahead_of info.seq_num x.seq_num)) [
        | inl t ↦ rw t (a, All-insert_nack c xs info all p)
        | inr f ↦ rw f (p, (a, all))
      ]

  pub All-put_nack :
      (c : SeqNum) (xs : List NackInfo) (info : NackInfo)
      → All P xs
      → P info
      → All P (put_nack c xs info)
  unfolding put_nack
  All-put_nack c xs info all p = elim (Bool-cases (is_some (find_nack xs info.seq_num))) [
    | inl t ↦ rw t (All-replace_nack xs info all p)
    | inr f ↦ rw f (All-insert_nack c xs info all p)
  ]

  pub All-drop_older :
      (c : SeqNum) (seq : ℕ) (xs : List NackInfo) → All P xs → All P (drop_older c seq xs)
  unfolding drop_older
  All-drop_older c seq [] all = tt
  All-drop_older c seq (x ∷ xs) (a, all) = elim (Bool-cases (c.ahead_of seq x.seq_num)) [
    | inl t ↦ rw t (All-drop_older c seq xs all)
    | inr f ↦ rw f (a, all)
  ]

  pub All-erase_nack : (xs : List NackInfo) (seq : ℕ) → All P xs → All P (erase_nack xs seq)
  unfolding erase_nack
  All-erase_nack [] seq all = tt
  All-erase_nack (x ∷ xs) seq (a, all) = elim (Bool-cases (x.seq_num == seq)) [
    | inl t ↦ rw t all
    | inr f ↦ rw f (a, All-erase_nack xs seq all)
  ]

pub drop_older-Unique :
    (c : SeqNum) (seq : ℕ) (xs : List NackInfo) → Unique xs → Unique (drop_older c seq xs)
unfolding drop_older
drop_older-Unique c seq [] u = tt
drop_older-Unique c seq (x ∷ xs) (new, u) = elim (Bool-cases (c.ahead_of seq x.seq_num)) [
  | inl t ↦ rw t (drop_older-Unique c seq xs u)
  | inr f ↦ rw f (new, u)
]

pub length-drop_older :
    (c : SeqNum) (seq : ℕ) (xs : List NackInfo) → length (drop_older c seq xs) ≤ length xs
unfolding drop_older
length-drop_older c seq [] = omega arith
length-drop_older c seq (x ∷ xs) = ground (arith, length-drop_older c seq xs)

pub length-erase_nack : (xs : List NackInfo) (seq : ℕ) → length (erase_nack xs seq) ≤ length xs
unfolding erase_nack
length-erase_nack [] seq = omega arith
length-erase_nack (x ∷ xs) seq = ground (arith, length-erase_nack xs seq)

-- Looking up after an erase.
pub find-erase_nack :
    (xs : List NackInfo) (seq j : ℕ)
    → Unique xs
    → find_nack (erase_nack xs seq) j ≡ (if seq == j then none else find_nack xs j)
unfolding find_nack erase_nack
find-erase_nack [] seq j u = ground arith
find-erase_nack (x ∷ xs) seq j (new, u) = elim (Bool-cases (x.seq_num == seq)) [
  | inl t ↦
      let d : x.seq_num ≡ seq = (==_iff x.seq_num seq).0 t in
      rw t (elim (Bool-cases (seq == j)) [
        | inl s ↦ rw s (let e : x.seq_num ≡ j = d ∙ (==_iff seq j).0 s in rw e at new)
        | inr s ↦ rw s (let f : (x.seq_num == j) ≡ false = rw d s in rw f)
      ])
  | inr t ↦ rw t (ground (arith, find-erase_nack xs seq j u))
]

pub erase_nack-Unique : (xs : List NackInfo) (seq : ℕ) → Unique xs → Unique (erase_nack xs seq)
unfolding erase_nack
erase_nack-Unique [] seq u = tt
erase_nack-Unique (x ∷ xs) seq (new, u) = elim (Bool-cases (x.seq_num == seq)) [
  | inl t ↦ rw t u
  | inr f ↦ rw f (ground (arith, find-erase_nack xs seq x.seq_num u), erase_nack-Unique xs seq u)
]
