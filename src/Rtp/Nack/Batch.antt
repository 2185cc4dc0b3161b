-- ===== src/Rtp/Nack/Batch.antt =====
-- GetNackBatch of nack_requester.cpp: whose packets are asked for, and when it gives up.
use xrtc_server.Base.{
  count, ℕ, ◌+◌, ◌≤◌, ◌<◌, ◌≡◌, refl, ◌∙◌, Bool, true, false, ◌↔◌, ◌⊎◌, ◌≢◌, List, [], ◌∷◌, Option,
  none, some, leb, ◌==◌, ==_iff, length, All, if◌then◌else◌, arith, inl, inr, Bool-cases,
}
use xrtc_server.Base.Int.{ℤ, negsuc, ◌-ℤ◌, ◌≤ℤ◌, ◌<ℤ◌}
use xrtc_server.Base.Seq.{SeqNum}
use xrtc_server.Rtp.Nack.{
  NackInfo, NackRequester, NackFilterOptions, find_nack, is_due, asked, batch_loop, get_nack_batch,
  max_nack_retries, time_only, seq_num_only,
}
use xrtc_server.Rtp.Nack.Entries.{Unique}

-- What becomes of an entry: due ones are asked for, and given up with their tenth request.
abbrev pub outcome :
    SeqNum → NackRequester → NackFilterOptions → ℤ → Option NackInfo → Option NackInfo
outcome c r option now none = none
outcome c r option now (some x) =
    if is_due c r option now x
    then (if leb max_nack_retries (x.retries + 1) then none else some (asked now x))
    else some x

abbrev pub due : SeqNum → NackRequester → NackFilterOptions → ℤ → Option NackInfo → Bool
due c r option now none = false
due c r option now (some x) = is_due c r option now x

-- When an entry's packet is to be asked for: the delay has passed since the entry was made, and either
-- requests for a number that was passed are considered, there was none yet, and the newest number is
-- at or past the one to wait for; or requests by time are considered, and more than the round trip
-- time has passed since the last one, which counts as sent at -1 when there was none.
abbrev pub IsDue : SeqNum → NackRequester → NackFilterOptions → ℤ → NackInfo → Type 0
IsDue c r option now x =
    (r.send_nack_delay_ms ≤ℤ now -ℤ x.created_time)
    × (((option ≢ time_only)
          × (x.send_at_time ≡ negsuc 0)
          × (c.ahead_or_at r.newest_seq_num x.send_at_seq_num ≡ true))
        ⊎ ((option ≢ seq_num_only) × (r.rtt_ms <ℤ now -ℤ x.send_at_time)))

-- The number stands in the batch n times, and `left` is what the list then has for it: nothing when this
-- was the tenth request or a later one, else the entry with the request counted and its time noted.
abbrev pub Asked : ℤ → NackInfo → Option NackInfo → ℕ → Type 0
Asked now x left n =
    (n ≡ 1)
    × (((9 ≤ x.retries) × (left ≡ none))
        ⊎ ((x.retries < 9)
            × (left
                ≡ some (record {
                  seq_num = x.seq_num;
                  send_at_seq_num = x.send_at_seq_num;
                  created_time = x.created_time;
                  send_at_time = now;
                  retries = x.retries + 1;
                }))))

-- What a round does to a number, by what the list had for it before.
abbrev pub Handled :
    SeqNum → NackRequester → NackFilterOptions → ℤ → Option NackInfo → Option NackInfo → ℕ → Type 0
Handled c r option now none left n = (left ≡ none) × (n ≡ 0)
Handled c r option now (some x) left n =
    (IsDue c r option now x × Asked now x left n)
    ⊎ ((¬ IsDue c r option now x) × (left ≡ some x) × (n ≡ 0))

module _ (c : SeqNum) (r : NackRequester) (option : NackFilterOptions) (now : ℤ) where
  pub find-batch_loop :
      (xs : List NackInfo) (seq : ℕ)
      → Unique xs
      → find_nack (batch_loop c r option now xs).0 seq ≡ outcome c r option now (find_nack xs seq)
  unfolding batch_loop find_nack
  find-batch_loop [] seq u = refl
  find-batch_loop (x ∷ xs) seq (new, u) =
      let ih = find-batch_loop xs seq u in
      elim (Bool-cases (x.seq_num == seq)) [
        | inr f ↦ ground (arith, ih)
        | inl t ↦
            let gone : find_nack xs seq ≡ none = rw ((==_iff x.seq_num seq).0 t) at new in
            let ih' : find_nack (batch_loop c r option now xs).0 seq ≡ none = rw gone at ih in
            ground (arith, ih')
      ]

  find-batch_loop-none :
      (xs : List NackInfo) (seq : ℕ)
      → Unique xs
      → find_nack xs seq ≡ none
      → find_nack (batch_loop c r option now xs).0 seq ≡ none
  find-batch_loop-none xs seq u e = find-batch_loop xs seq u ∙ rw e refl

  pub batch_loop-Unique : (xs : List NackInfo) → Unique xs → Unique (batch_loop c r option now xs).0
  unfolding batch_loop
  batch_loop-Unique [] u = tt
  batch_loop-Unique (x ∷ xs) (new, u) =
      let ih = batch_loop-Unique xs u in
      let gone = find-batch_loop-none xs x.seq_num u new in
      elim (Bool-cases (is_due c r option now x)) [
        | inr f ↦ rw f (gone, ih)
        | inl t ↦ elim (Bool-cases (leb max_nack_retries (x.retries + 1))) [
          | inl s ↦ rw (t, s) ih
          | inr s ↦ rw (t, s) (gone, ih)
        ]
      ]

  pub batch_loop-retries :
      (xs : List NackInfo)
      → All (λ x. x.retries < 10) xs
      → All (λ x. x.retries < 10) (batch_loop c r option now xs).0
  unfolding batch_loop
  batch_loop-retries [] all = tt
  batch_loop-retries (x ∷ xs) (a, all) =
      let ih = batch_loop-retries xs all in
      elim (Bool-cases (is_due c r option now x)) [
        | inr f ↦ rw f (a, ih)
        | inl t ↦ elim (Bool-cases (leb max_nack_retries (x.retries + 1))) [
          | inl s ↦ rw (t, s) ih
          | inr s ↦ rw (t, s) (ground arith, ih)
        ]
      ]

  pub length-batch_loop : (xs : List NackInfo) → length (batch_loop c r option now xs).0 ≤ length xs
  unfolding batch_loop
  length-batch_loop [] = omega arith
  length-batch_loop (x ∷ xs) = ground (arith, length-batch_loop xs)

  count-batch_loop :
      (xs : List NackInfo) (seq : ℕ)
      → Unique xs
      → count seq (batch_loop c r option now xs).1
        ≡ (if due c r option now (find_nack xs seq) then 1 else 0)
  unfolding batch_loop find_nack
  count-batch_loop [] seq u = refl
  count-batch_loop (x ∷ xs) seq (new, u) =
      let ih = count-batch_loop xs seq u in
      elim (Bool-cases (x.seq_num == seq)) [
        | inr f ↦ ground (arith, ih)
        | inl t ↦
            let gone : find_nack xs seq ≡ none = rw ((==_iff x.seq_num seq).0 t) at new in
            let ih' : count seq (batch_loop c r option now xs).1 ≡ 0 = rw gone at ih in
            ground (arith, ih')
      ]

  is_due_iff : (x : NackInfo) → (is_due c r option now x ≡ true) ↔ IsDue c r option now x
  unfolding is_due
  is_due_iff x = ground arith

  -- The tenth request is the last.
  retries_left :
      (x : NackInfo)
      → ((9 ≤ x.retries)
          × ((if leb max_nack_retries (x.retries + 1) then none else some (asked now x)) ≡ none))
        ⊎ ((x.retries < 9)
            × ((if leb max_nack_retries (x.retries + 1) then none else some (asked now x))
                ≡ some (asked now x)))
  retries_left x = ground arith

  outcome-Handled :
      (before : Option NackInfo)
      → Handled c r option now before
          (outcome c r option now before)
          (if due c r option now before then 1 else 0)
  outcome-Handled none = (refl, refl)
  outcome-Handled (some x) = elim (Bool-cases (is_due c r option now x)) [
    | inl t ↦ rw t (inl ((is_due_iff x).0 t, (refl, retries_left x)))
    | inr f ↦ rw f (inr (λ d. (let t = (is_due_iff x).1 d in absurd cc), refl, refl))
  ]

  -- One round of requests, on a list that has one entry at most for a number. A number that is not
  -- listed is not asked for. A listed one is asked for, once, exactly when it is due: the delay has
  -- passed since its entry was made, and either the round considers numbers, it was not asked for
  -- before and the newest number is at or past the one to wait for, or the round considers times and
  -- more than the round trip time has passed since `send_at_time`, which is -1 before the first
  -- request. Then its entry goes if it was asked for nine times or more before, and else counts the
  -- request and notes its time, all else unchanged. An entry that is not due stays as it was.
  pub get_nack_batch-asks :
      Unique r.nack_list
      → (seq : ℕ)
      → Handled c r option now
          (find_nack r.nack_list seq)
          (find_nack (get_nack_batch c r option now).0.nack_list seq)
          (count seq (get_nack_batch c r option now).1)
  unfolding get_nack_batch
  get_nack_batch-asks u seq =
      rw (count-batch_loop r.nack_list seq u, find-batch_loop r.nack_list seq u)
        (outcome-Handled (find_nack r.nack_list seq))
