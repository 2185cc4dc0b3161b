-- ===== src/Ice/Connection/Announced.antt =====
-- The signals of src/ice/ice_connection.cpp: no change that its owner reads is kept from it.
use xrtc_server.Base.{
  ℕ, ◌≡◌, refl, inl, inr, Bool, true, false, List, [], ◌∷◌, ◌++◌, none, some, ◌==◌, ==_iff, if_keep,
  if_true, if_false, arith, Bool-cases, sym, subst, ◌∙◌,
}
use xrtc_server.Ice.Connection.{
  IceConnection, WriteState, Signal, state_change, connection_destroy, Done, Survival,
  GetNextMovingAverage, rank, same, is_receiving, update_receiving, set_write_state, set_state,
  received_ping_response, with_rtt, state_writable, state_write_unreliable, state_write_timeout,
  state_write_init, succeeded, failed, survive, after, destroy_after, fail_and_destroy,
  mark_unreliable, time_out_or_receive, update_state, is_unresponsive, is_expired,
  on_request_error_response, is_recoverable, ping, receive_data, receive_ping,
  maybe_set_remote_ice_params,
}
use xrtc_server.Ice.Connection.Histories.{
  Event, pinged, responded, error_responded, updated, got_data, got_ping, got_params, step,
}

-- The connection as its owner has seen it last.
abbrev pub last_seen : IceConnection → List Signal → IceConnection
last_seen c [] = c
last_seen c (state_change d ∷ signals) = last_seen d signals
last_seen c (connection_destroy d ∷ signals) = last_seen d signals

abbrev pub Agree : IceConnection → IceConnection → Type 0
Agree c d = (c.write_state ≡ d.write_state) × (c.receiving ≡ d.receiving)

-- The connection that is left is writable and receiving as it was last seen.
abbrev pub Announced : IceConnection → Survival → Type 0
Announced c (none, signals) = Unit {0}
Announced c (some d, signals) = Agree d (last_seen c signals)

last_seen-append :
    (c : IceConnection) (xs ys : List Signal)
    → last_seen c (xs ++ ys) ≡ last_seen (last_seen c xs) ys
last_seen-append c [] ys = refl
last_seen-append c (state_change d ∷ xs) ys = last_seen-append d xs ys
last_seen-append c (connection_destroy d ∷ xs) ys = last_seen-append d xs ys

eq_of_same : (a b : Bool) → same a b ≡ true → a ≡ b
eq_of_same true b e = sym e
eq_of_same false true e = absurd cc
eq_of_same false false e = refl

-- A first operation that leaves what it showed.
abbrev Shown : IceConnection → Done → Type 0
Shown c d = Agree d.0 (last_seen c d.1)

receiving-Shown : (c : IceConnection) (now : ℕ) → Shown c (update_receiving c now)
unfolding update_receiving
receiving-Shown c now =
    let changed = record c { receiving = is_receiving c now } in
    if_keep (Shown c) (same c.receiving (is_receiving c now)) (c, [])
      (changed, state_change changed ∷ []) (refl, refl) (refl, refl)

eq_of_rank : (s t : WriteState) → rank s ≡ rank t → s ≡ t
eq_of_rank state_writable state_writable e = refl
eq_of_rank state_writable state_write_unreliable e = absurd (omega arith)
eq_of_rank state_writable state_write_init e = absurd (omega arith)
eq_of_rank state_writable state_write_timeout e = absurd (omega arith)
eq_of_rank state_write_unreliable state_writable e = absurd (omega arith)
eq_of_rank state_write_unreliable state_write_unreliable e = refl
eq_of_rank state_write_unreliable state_write_init e = absurd (omega arith)
eq_of_rank state_write_unreliable state_write_timeout e = absurd (omega arith)
eq_of_rank state_write_init state_writable e = absurd (omega arith)
eq_of_rank state_write_init state_write_unreliable e = absurd (omega arith)
eq_of_rank state_write_init state_write_init e = refl
eq_of_rank state_write_init state_write_timeout e = absurd (omega arith)
eq_of_rank state_write_timeout state_writable e = absurd (omega arith)
eq_of_rank state_write_timeout state_write_unreliable e = absurd (omega arith)
eq_of_rank state_write_timeout state_write_init e = absurd (omega arith)
eq_of_rank state_write_timeout state_write_timeout e = refl

write_state-Shown : (c : IceConnection) (s : WriteState) → Shown c (set_write_state c s)
unfolding set_write_state
write_state-Shown c s =
    let changed = record c { write_state = s } in
    elim (Bool-cases (rank c.write_state == rank s)) [
      | inl e ↦
          let same_state : s ≡ c.write_state =
            sym (eq_of_rank c.write_state s ((==_iff _ _).0 e)) in
          if_true (λ (l : List Signal). Agree changed (last_seen c l))
            (rank c.write_state == rank s) [] (state_change changed ∷ []) e (same_state, refl)
      | inr e ↦
          if_false (λ (l : List Signal). Agree changed (last_seen c l))
            (rank c.write_state == rank s) [] (state_change changed ∷ []) e (refl, refl)
    ]

-- What an operation shows after signals that end with what it starts from.
Agree-after :
    (b c d : IceConnection) (xs ys : List Signal)
    → Agree c (last_seen b xs)
    → Agree d (last_seen c ys)
    → Agree d (last_seen b (xs ++ ys))
Agree-after b c d xs ys h k = subst (Agree d) (sym (last_seen-append b xs ys)) (from ys k)
  where
    from : (zs : List Signal) → Agree d (last_seen c zs) → Agree d (last_seen (last_seen b xs) zs)
    from [] m = (m.0 ∙ h.0, m.1 ∙ h.1)
    from (state_change x ∷ zs) m = m
    from (connection_destroy x ∷ zs) m = m

Agree-from :
    (b c d : IceConnection) (zs : List Signal)
    → Agree b c
    → Agree d (last_seen b zs)
    → Agree d (last_seen c zs)
Agree-from b c d [] h m = (m.0 ∙ h.0, m.1 ∙ h.1)
Agree-from b c d (state_change x ∷ zs) h m = m
Agree-from b c d (connection_destroy x ∷ zs) h m = m

response-Announced :
    (average : GetNextMovingAverage) (c : IceConnection) (rtt now : ℕ)
    → Announced c (survive (received_ping_response average c rtt now))
unfolding received_ping_response set_state with_rtt
response-Announced average c rtt now =
    let answered = record (with_rtt average c rtt) {
      last_ping_response_received = now;
      pings_since_last_response = [];
    } in
    let received = update_receiving answered now in
    let written = set_write_state received.0 state_writable in
    Agree-from answered c (set_state written.0 succeeded) (received.1 ++ written.1) (refl, refl)
      (Agree-after answered received.0 written.0 received.1 written.1 (receiving-Shown answered now)
        (write_state-Shown received.0 state_writable))

marked-Shown : (c : IceConnection) (now : ℕ) → Shown c (mark_unreliable c now)
unfolding mark_unreliable
marked-Shown c now =
    if_keep (Shown c) (is_unresponsive c now) (set_write_state c state_write_unreliable) (c, [])
      (write_state-Shown c state_write_unreliable) (refl, refl)

after-Announced :
    (b c : IceConnection) (xs : List Signal) (s : Survival)
    → Agree c (last_seen b xs)
    → Announced c s
    → Announced b (after xs s)
after-Announced b c xs (none, ys) h k = tt
after-Announced b c xs (some d, ys) h k = Agree-after b c d xs ys h k

update_state-Announced : (c : IceConnection) (now : ℕ) → Announced c (update_state c now)
unfolding update_state time_out_or_receive fail_and_destroy
update_state-Announced c now =
    let marked = mark_unreliable c now in
    after-Announced c marked.0 marked.1 (time_out_or_receive marked.0 now) (marked-Shown c now) (
      if_keep (Announced marked.0) (is_expired marked.0 now)
        (destroy_after (set_write_state marked.0 state_write_timeout))
        (survive (update_receiving marked.0 now)) tt (receiving-Shown marked.0 now))

-- Whatever happens to a connection, if it is not deleted its write state and its receiving flag are
-- those that the last state change signal of the step showed, or those of before when there is none.
pub step-Announced :
    (average : GetNextMovingAverage) (c : IceConnection) (e : Event)
    → Announced c (step average c e)
unfolding step ping set_state receive_data receive_ping maybe_set_remote_ice_params
    on_request_error_response fail_and_destroy
step-Announced average c (pinged id now) = (refl, refl)
step-Announced average c (responded rtt now) = response-Announced average c rtt now
step-Announced average c (error_responded code) =
    if_keep (Announced c) (is_recoverable code) (some c, [])
      (none, connection_destroy (set_state c failed) ∷ []) (refl, refl) tt
step-Announced average c (updated now) = update_state-Announced c now
step-Announced average c (got_data now) = (refl, refl)
step-Announced average c (got_ping now) = (refl, refl)
step-Announced average c (got_params ufrag pwd) =
    if_keep (λ (d : IceConnection). Agree d c) _ (record c { remote_password = pwd }) c (refl, refl)
      (refl, refl)
