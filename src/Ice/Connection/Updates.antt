-- ===== src/Ice/Connection/Updates.antt =====
-- IceConnection::UpdateState of src/ice/ice_connection.cpp on every branch.
use xrtc_server.Base.{
  ℕ, ◌+◌, ◌*◌, ◌<◌, ◌≡◌, refl, ◌↔◌, ◌⊎◌, inl, inr, Bool, true, false, List, [], ◌∷◌, Option, none,
  some, ltb, length, get_elem?, if◌then◌else◌, max, min, arith, Bool-cases, ltb→lt, zero, suc, ap,
  sym, lt→ltb, ◌∙◌,
}
use xrtc_server.Base.Int.{ℤ, pos, ◌<ℤ◌}
use xrtc_server.Ice.Connection.{
  IceConnection, SentPing, rank, int32, too_many_ping_fails, too_long_without_response, clamped_rtt,
  mark_unreliable, is_unresponsive, is_expired, time_out_or_receive, update_state, update_receiving,
  set_write_state, fail_and_destroy, is_receiving, is_after, state_write_unreliable, same,
}

-- The first unanswered ping was sent more than `t` before `now`.
abbrev pub Silent : IceConnection → ℕ → ℕ → Type 0
Silent c t now =
    (p : SentPing) × (get_elem? c.pings_since_last_response 0 ≡ some p)
    × (pos (p.sent_time + t) <ℤ pos now)

-- Twice the round trip time, as the source bounds it.
abbrev pub patience : IceConnection → ℕ
patience c = max 100 (min 60000 (2 * c.rtt))

-- Five pings are unanswered, and the fifth for longer than `patience`.
abbrev pub Failing : IceConnection → ℕ → Type 0
Failing c now =
    (p : SentPing) × (get_elem? c.pings_since_last_response 4 ≡ some p)
    × (int32 (p.sent_time + patience c) <ℤ pos now)

pub clamped_rtt-patience : (c : IceConnection) → clamped_rtt c ≡ patience c
unfolding clamped_rtt
clamped_rtt-patience c = ground arith

-- A test on the sending time of a ping, by what the list holds at its place.
is_after_iff :
    (o : Option SentPing) (now : ℕ) (due : ℕ → ℤ)
    → (is_after now (elim o [ none ↦ none | some p ↦ some p.sent_time ]) due ≡ true)
      ↔ ((p : SentPing) × (o ≡ some p) × (due p.sent_time <ℤ pos now))
is_after_iff none now due = (λ h. absurd cc, λ (p, e, h). absurd cc)
is_after_iff (some q) now due = (
  λ h. (q, refl, ltb→lt _ _ h),
  λ (p, e, h). let same_ping : q ≡ p = cc in rw same_ping (lt→ltb _ _ h),
)

some_of_length : (l : List SentPing) (n : ℕ) (p : SentPing) → get_elem? l n ≡ some p → n < length l
some_of_length [] n p e = absurd cc
some_of_length (x ∷ xs) zero p e = omega arith
some_of_length (x ∷ xs) (suc n) p e = omega (arith, some_of_length xs n p e)

pub too_long-Silent :
    (c : IceConnection) (t now : ℕ) → (too_long_without_response c t now ≡ true) ↔ Silent c t now
unfolding too_long_without_response
too_long-Silent c t now =
    is_after_iff (get_elem? c.pings_since_last_response 0) now (λ (s : ℕ). pos (s + t))

pub too_many-Failing :
    (c : IceConnection) (now : ℕ)
    → (too_many_ping_fails c 5 (clamped_rtt c) now ≡ true) ↔ Failing c now
unfolding too_many_ping_fails
too_many-Failing c now =
    let iff =
      is_after_iff (get_elem? c.pings_since_last_response 4) now
        (λ (s : ℕ). int32 (s + clamped_rtt c)) in
    rw (sym (clamped_rtt-patience c))
      (elim (Bool-cases (ltb (length c.pings_since_last_response) 5)) [
        | inl e ↦ (
          λ h. absurd (ground arith),
          λ (p, q, r). absurd (omega (arith, some_of_length _ 4 p q, ltb→lt _ _ e)),
        )
        | inr e ↦ rw e iff
      ])

-- The condition under which a writable connection becomes unreliable.
abbrev pub Unresponsive : IceConnection → ℕ → Type 0
Unresponsive c now = (rank c.write_state ≡ 0) × Failing c now × Silent c 5000 now

-- The condition under which a connection is given up.
abbrev pub Expires : IceConnection → ℕ → Type 0
Expires c now =
    ((rank c.write_state ≡ 1) ⊎ (rank c.write_state ≡ 2) ⊎ Unresponsive c now) × Silent c 15000 now

pub is_unresponsive_lem :
    (c : IceConnection) (now : ℕ) → (is_unresponsive c now ≡ true) ↔ Unresponsive c now
unfolding is_unresponsive
is_unresponsive_lem c now = (
  λ h. (
    ground arith,
    (too_many-Failing c now).0 (ground arith),
    (too_long-Silent c 5000 now).0 (ground arith),
  ),
  λ (w, f, s). rw (w, (too_many-Failing c now).1 f, (too_long-Silent c 5000 now).1 s) refl,
)

pub is_expired_lem :
    (c : IceConnection) (now : ℕ)
    → (is_expired c now ≡ true)
      ↔ (((rank c.write_state ≡ 1) ⊎ (rank c.write_state ≡ 2)) × Silent c 15000 now)
unfolding is_expired
is_expired_lem c now = (
  λ h. (ground arith, (too_long-Silent c 15000 now).0 (ground arith)),
  λ (w, s). rw ((too_long-Silent c 15000 now).1 s) (ground arith),
)

-- Being given up when it is marked, or not.
expired_marked :
    (c : IceConnection) (now : ℕ)
    → is_unresponsive c now ≡ true
    → (is_expired (mark_unreliable c now).0 now ≡ too_long_without_response c 15000 now)
unfolding mark_unreliable set_write_state is_expired too_long_without_response
expired_marked c now e = rw e refl

expired_unmarked :
    (c : IceConnection) (now : ℕ)
    → is_unresponsive c now ≡ false
    → is_expired (mark_unreliable c now).0 now ≡ is_expired c now
unfolding mark_unreliable
expired_unmarked c now e = rw e refl

gone-expired :
    (c : IceConnection) (now : ℕ)
    → ((update_state c now).0 ≡ none) ↔ (is_expired (mark_unreliable c now).0 now ≡ true)
unfolding update_state time_out_or_receive fail_and_destroy
gone-expired c now = elim (Bool-cases (is_expired (mark_unreliable c now).0 now)) [
  | inl e ↦ (λ h. e, λ h. rw e refl)
  | inr e ↦ (λ h. absurd (ground arith), λ h. absurd cc)
]

-- UpdateState deletes the connection exactly when its first unanswered ping is more than fifteen
-- seconds old and it is unreliable, has never been writable, or is writable and becomes unreliable in
-- this call.
pub destroyed_iff : (c : IceConnection) (now : ℕ) → ((update_state c now).0 ≡ none) ↔ Expires c now
destroyed_iff c now = elim (Bool-cases (is_unresponsive c now)) [
  | inl e ↦ (
    λ h. (
      inr (inr ((is_unresponsive_lem c now).0 e)),
      (too_long-Silent c 15000 now).0 (sym (expired_marked c now e) ∙ (gone-expired c now).0 h),
    ),
    λ (w, s). (gone-expired c now).1 (expired_marked c now e ∙ (too_long-Silent c 15000 now).1 s),
  )
  | inr e ↦ (
    λ h.
        let (w, s) =
          (is_expired_lem c now).0 (sym (expired_unmarked c now e) ∙ (gone-expired c now).0 h) in
        (elim w [ inl a ↦ inl a | inr a ↦ inr (inl a) ], s),
    λ (w, s).
        let reached : (rank c.write_state ≡ 1) ⊎ (rank c.write_state ≡ 2) = elim w [
          | inl a ↦ inl a
          | inr (inl a) ↦ inr a
          | inr (inr u) ↦ absurd (let u' = (is_unresponsive_lem c now).1 u in cc)
        ] in
        (gone-expired c now).1 (expired_unmarked c now e ∙ (is_expired_lem c now).1 (reached, s)),
  )
]

eq_of_same : (a b : Bool) → same a b ≡ true → a ≡ b
eq_of_same true b e = sym e
eq_of_same false true e = absurd cc
eq_of_same false false e = refl

-- The flag is the one computed, changed or not.
pub update_receiving_lem :
    (c : IceConnection) (now : ℕ)
    → (update_receiving c now).0 ≡ record c { receiving = is_receiving c now }
unfolding update_receiving
update_receiving_lem c now = elim (Bool-cases (same c.receiving (is_receiving c now))) [
  | inl e ↦ rw e (
      ap (λ (b : Bool). record c { receiving = b }) (eq_of_same c.receiving (is_receiving c now) e))
  | inr e ↦ rw e refl
]

survivor :
    (c : IceConnection) (now : ℕ)
    → (update_state c now).0 ≡ (
        if is_expired (mark_unreliable c now).0 now
        then none
        else some (update_receiving (mark_unreliable c now).0 now).0)
unfolding update_state time_out_or_receive fail_and_destroy
survivor c now = elim (Bool-cases (is_expired (mark_unreliable c now).0 now)) [
  | inl e ↦ rw e refl
  | inr e ↦ rw e refl
]

-- The connection that is left, when one is.
left :
    (c d : IceConnection) (now : ℕ)
    → (update_state c now).0 ≡ some d
    → d ≡ (update_receiving (mark_unreliable c now).0 now).0
left c d now h =
    let e = sym h ∙ survivor c now in
    elim (Bool-cases (is_expired (mark_unreliable c now).0 now)) [
      | inl x ↦ absurd (ground (arith))
      | inr x ↦ ground arith
    ]

-- A connection that UpdateState does not delete is unreliable when it was unresponsive, has else the
-- write state it had, and has the receiving flag of this time; nothing else of it changes.
pub update_state-survivor :
    (c d : IceConnection) (now : ℕ)
    → (update_state c now).0 ≡ some d
    → (Unresponsive c now
        × (d ≡ record c { write_state = state_write_unreliable; receiving = is_receiving c now }))
      ⊎ ((Unresponsive c now → ⊥) × (d ≡ record c { receiving = is_receiving c now }))
unfolding mark_unreliable set_write_state is_receiving
update_state-survivor c d now h =
    let e = left c d now h ∙ update_receiving_lem (mark_unreliable c now).0 now in
    elim (Bool-cases (is_unresponsive c now)) [
      | inl u ↦ inl ((is_unresponsive_lem c now).0 u, rw u at e)
      | inr u ↦ inr (λ w. let t = (is_unresponsive_lem c now).1 w in cc, rw u at e)
    ]
