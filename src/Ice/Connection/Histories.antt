-- ===== src/Ice/Connection/Histories.antt =====
-- The life of an IceConnection of src/ice/ice_connection.cpp: any sequence of its operations.
use xrtc_server.Base.{
  ℕ, ◌≤◌, ◌<◌, ◌≡◌, refl, ◌⊎◌, inl, inr, List, [], ◌∷◌, Option, none, some, length, arith, if_keep,
  length-append, subst,
}
use xrtc_server.Ice.Connection.{
  IceConnection, PairState, connection_destroy, Survival, GetNextMovingAverage, rank,
  state_writable, failed, waiting, in_progress, succeeded, create, received_ping_response,
  on_request_error_response, update_state, set_write_state, set_state, with_rtt,
  maybe_set_remote_ice_params, ping, receive_data, receive_ping, fail_and_destroy, survive,
  is_recoverable, is_receiving,
}
use xrtc_server.Ice.Connection.Updates.{update_state-survivor, update_receiving_lem}

-- What happens to a connection: the operations of the class, with the time where they take it.
pub data Event : Type 0 where
  pinged : (id : List ℕ) (now : ℕ) → Event
  responded : (rtt now : ℕ) → Event
  error_responded : (code : ℕ) → Event
  updated : (now : ℕ) → Event
  got_data : (now : ℕ) → Event
  got_ping : (now : ℕ) → Event
  got_params : (ufrag pwd : List ℕ) → Event

module _ (average : GetNextMovingAverage) where
  unfoldable pub step : IceConnection → Event → Survival
  step c (pinged id now) = (some (ping c id now), [])
  step c (responded rtt now) = survive (received_ping_response average c rtt now)
  step c (error_responded code) = on_request_error_response c code
  step c (updated now) = update_state c now
  step c (got_data now) = (some (receive_data c now), [])
  step c (got_ping now) = (some (receive_ping c now), [])
  step c (got_params ufrag pwd) = (some (maybe_set_remote_ice_params c ufrag pwd), [])

  -- A deleted connection has no further operations.
  unfoldable pub run : Option IceConnection → List Event → Option IceConnection
  run none es = none
  run (some c) [] = some c
  run (some c) (e ∷ es) = run (step c e).0 es

-- The states of the pair, as the source numbers them.
abbrev pub state_rank : PairState → ℕ
state_rank waiting = 0
state_rank in_progress = 1
state_rank succeeded = 2
state_rank failed = 3

-- What holds of every connection that has not been deleted.
pub record IsValid (c : IceConnection) : Type 0 where
  pub not_timed_out : rank c.write_state ≤ 2
  pub fresh : rank c.write_state ≡ 2 → c.rtt_samples ≡ 0
  pub sampled : rank c.write_state ≤ 1 → 0 < c.rtt_samples
  pub not_failed : state_rank c.state ≤ 2
  pub counted : length c.pings_since_last_response ≤ c.num_pings_sent
  pub unpinged : c.num_pings_sent ≡ 0 → state_rank c.state ≡ 0 ⊎ 0 < c.rtt_samples

abbrev pub AllValid : Option IceConnection → Type 0
AllValid none = Unit {0}
AllValid (some c) = IsValid c

create-IsValid : (u p : List ℕ) (r l : ℕ) → IsValid (create u p r l)
unfolding create
create-IsValid u p r l = ground arith

ping-IsValid : (c : IceConnection) (id : List ℕ) (now : ℕ) → IsValid c → IsValid (ping c id now)
unfolding ping set_state
ping-IsValid c id now h =
    let grown =
      length-append c.pings_since_last_response (record { id = id; sent_time = now } ∷ []) in
    record {
      not_timed_out = h.not_timed_out;
      fresh = h.fresh;
      sampled = h.sampled;
      not_failed = omega arith;
      counted = let counted = h.counted in omega arith;
      unpinged = λ e. absurd (omega arith);
    }

-- A response makes the connection writable and the pair succeeded, and clears the pings that wait.
pub received_ping_response_lem :
    (average : GetNextMovingAverage) (c : IceConnection) (rtt now : ℕ)
    → let answered = record (with_rtt average c rtt) {
      last_ping_response_received = now;
      pings_since_last_response = [];
    } in
      (received_ping_response average c rtt now).0 ≡ record answered {
        receiving = is_receiving answered now;
        write_state = state_writable;
        state = succeeded;
      }
unfolding received_ping_response set_state set_write_state
received_ping_response_lem average c rtt now =
    rw
      (update_receiving_lem
        (record (with_rtt average c rtt) {
          last_ping_response_received = now;
          pings_since_last_response = [];
        })
        now)
      refl

response-IsValid :
    (average : GetNextMovingAverage) (c : IceConnection) (rtt now : ℕ)
    → IsValid c
    → IsValid (received_ping_response average c rtt now).0
unfolding with_rtt
response-IsValid average c rtt now h = rw (received_ping_response_lem average c rtt now) record {
  not_timed_out = omega arith;
  fresh = λ e. absurd (omega arith);
  sampled = λ e. omega arith;
  not_failed = omega arith;
  counted = omega arith;
  unpinged = λ e. inr (omega arith);
}

update-IsValid : (c : IceConnection) (now : ℕ) → IsValid c → AllValid (update_state c now).0
update-IsValid c now h = survives (update_state c now).0 refl
  where
    survives : (o : Option IceConnection) → (update_state c now).0 ≡ o → AllValid o
    survives none e = tt
    survives (some d) e = elim (update_state-survivor c d now e) [
      | inl (u, p) ↦ rw p record {
        not_timed_out = omega arith;
        fresh = λ e. absurd (omega arith);
        sampled = λ r. h.sampled (let w = u.0 in omega arith);
        not_failed = h.not_failed;
        counted = h.counted;
        unpinged = h.unpinged;
      }
      | inr (u, p) ↦ rw p record {
        not_timed_out = h.not_timed_out;
        fresh = h.fresh;
        sampled = h.sampled;
        not_failed = h.not_failed;
        counted = h.counted;
        unpinged = h.unpinged;
      }
    ]

kept :
    (c d : IceConnection)
    → d ≡ record c {
      remote_password = d.remote_password;
      last_data_received = d.last_data_received;
      last_ping_received = d.last_ping_received;
    }
    → IsValid c
    → IsValid d
kept c d e h = rw e record {
  not_timed_out = h.not_timed_out;
  fresh = h.fresh;
  sampled = h.sampled;
  not_failed = h.not_failed;
  counted = h.counted;
  unpinged = h.unpinged;
}

module _ (average : GetNextMovingAverage) where
  step-IsValid : (c : IceConnection) (e : Event) → IsValid c → AllValid (step average c e).0
  unfolding step receive_data receive_ping maybe_set_remote_ice_params on_request_error_response
      fail_and_destroy
  step-IsValid c (pinged id now) h = ping-IsValid c id now h
  step-IsValid c (responded rtt now) h = response-IsValid average c rtt now h
  step-IsValid c (error_responded code) h =
      if_keep (λ (s : Survival). AllValid s.0) (is_recoverable code) (some c, [])
        (none, connection_destroy (set_state c failed) ∷ []) h tt
  step-IsValid c (updated now) h = update-IsValid c now h
  step-IsValid c (got_data now) h = kept c (record c { last_data_received = now }) refl h
  step-IsValid c (got_ping now) h = kept c (record c { last_ping_received = now }) refl h
  step-IsValid c (got_params ufrag pwd) h =
      if_keep IsValid _ (record c { remote_password = pwd }) c
        (kept c (record c { remote_password = pwd }) refl h) h

  run-IsValid :
      (o : Option IceConnection) (es : List Event) → AllValid o → AllValid (run average o es)
  unfolding run
  run-IsValid none es h = h
  run-IsValid (some c) [] h = h
  run-IsValid (some c) (e ∷ es) h = run-IsValid (step average c e).0 es (step-IsValid c e h)

  -- Whatever happens to a new connection, for as long as it is not deleted it has not timed out and
  -- its pair has not failed, it has a round trip sample exactly when it has once been writable, and no
  -- more pings wait for an answer than were sent.
  pub run-create-IsValid :
      (u p : List ℕ) (r l : ℕ) (es : List Event) (c : IceConnection)
      → run average (some (create u p r l)) es ≡ some c
      → IsValid c
  run-create-IsValid u p r l es c e =
      subst AllValid e (run-IsValid (some (create u p r l)) es (create-IsValid u p r l))
