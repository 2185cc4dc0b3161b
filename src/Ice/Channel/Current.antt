-- ===== src/Ice/Channel/Current.antt =====
-- What a channel of src/ice/ice_transport_channel.cpp tells is what its connections are.
use xrtc_server.Base.{
  ℕ, ◌≡◌, refl, inl, inr, Bool, true, false, ◌||◌, Option, none, some, ◌==◌, ==_iff, if_keep,
  Bool-cases, sym, ap, subst, ◌∙◌,
}
use xrtc_server.Ice.Controller
use xrtc_server.Ice.Controller.{
  View, IceController, any, mark_connection_pinged, select_connection_to_ping,
}
use xrtc_server.Ice.Channel.{
  IceTransportChannel, IceTransportState, rank, Done, same, set_writable, set_receiving,
  selected_writable, any_receiving, computed_state, set_state, update_state,
  switch_selected_connection, maybe_switch, maybe_start_pinging, sorted, sort_and_update_state,
  is_selected, on_connection_destroyed,
}

-- The flags and the state are those of the connections at this moment.
pub record IsCurrent (ch : IceTransportChannel) : Type 0 where
  pub writable_now : ch.writable ≡ selected_writable ch.store ch.selected_connection
  pub receiving_now : ch.receiving ≡ any_receiving ch.store ch.controller.connections
  pub state_now : rank ch.state ≡ rank (computed_state ch)

eq_of_same : (a b : Bool) → same a b ≡ true → a ≡ b
eq_of_same true b e = sym e
eq_of_same false true e = absurd cc
eq_of_same false false e = refl

-- The setters give the flag that they are given, and leave the rest but has_been_connection.
set_writable_lem :
    (w : Bool) (ch : IceTransportChannel)
    → (b : Bool) × ((set_writable w ch).0 ≡ record ch { writable = w; has_been_connection = b })
unfolding set_writable
set_writable_lem w ch = elim (Bool-cases (same ch.writable w)) [
  | inl e ↦ (
    ch.has_been_connection,
    rw e (ap (λ (b : Bool). record ch { writable = b }) (eq_of_same ch.writable w e)),
  )
  | inr e ↦ (w || ch.has_been_connection, rw e refl)
]

set_receiving_lem :
    (r : Bool) (ch : IceTransportChannel) → (set_receiving r ch).0 ≡ record ch { receiving = r }
unfolding set_receiving
set_receiving_lem r ch = elim (Bool-cases (same ch.receiving r)) [
  | inl e ↦ rw e (ap (λ (b : Bool). record ch { receiving = b }) (eq_of_same ch.receiving r e))
  | inr e ↦ rw e refl
]

set_state_lem :
    (s : IceTransportState) (ch : IceTransportChannel)
    → (t : IceTransportState) × ((set_state s ch).0 ≡ record ch { state = t }) × (rank t ≡ rank s)
unfolding set_state
set_state_lem s ch = elim (Bool-cases (rank s == rank ch.state)) [
  | inl e ↦ (ch.state, rw e refl, sym ((==_iff (rank s) (rank ch.state)).0 e))
  | inr e ↦ (s, rw e refl, refl)
]

-- UpdateState leaves the channel current, with the connections and the selection it had.
pub record Updated (ch d : IceTransportChannel) : Type 0 where
  pub current : IsCurrent d
  pub same_store : d.store ≡ ch.store
  pub same_controller : d.controller ≡ ch.controller
  pub same_selected : d.selected_connection ≡ ch.selected_connection

pub update_state-Updated : (ch : IceTransportChannel) → Updated ch (update_state ch).0
unfolding update_state
update_state-Updated ch =
    let w = selected_writable ch.store ch.selected_connection in
    let (b, first) = set_writable_lem w ch in
    let c = record ch { writable = w; has_been_connection = b } in
    let r = any_receiving ch.store ch.controller.connections in
    let d = record c { receiving = r } in
    let (s, third, ranked) = set_state_lem (computed_state d) d in
    subst
      (λ (x : IceTransportChannel).
        Updated ch
          (set_state
            (computed_state (set_receiving (any_receiving x.store x.controller.connections) x).0)
            (set_receiving (any_receiving x.store x.controller.connections) x).0).0)
      (sym first)
      (subst (λ (x : IceTransportChannel). Updated ch (set_state (computed_state x) x).0)
        (sym (set_receiving_lem r c))
        (subst (Updated ch) (sym third) record {
          current = record { writable_now = refl; receiving_now = refl; state_now = ranked };
          same_store = refl;
          same_controller = refl;
          same_selected = refl;
        }))

pub sort_and_update-IsCurrent :
    (now : ℕ) (ch : IceTransportChannel) → IsCurrent (sort_and_update_state now ch).0
unfolding sort_and_update_state maybe_start_pinging
sort_and_update-IsCurrent now ch =
    let u = update_state-Updated (sorted ch) in
    record {
      writable_now = u.current.writable_now;
      receiving_now = u.current.receiving_now;
      state_now = u.current.state_now;
    }

maybe_switch-store :
    (o : Option ℕ) (ch : IceTransportChannel) → (maybe_switch o ch).store ≡ ch.store
unfolding switch_selected_connection
maybe_switch-store none ch = refl
maybe_switch-store (some p) ch = refl

sorted-store : (ch : IceTransportChannel) → (sorted ch).store ≡ ch.store
sorted-store ch =
    let r = Controller.sort_and_switch_connection ch.store ch.controller in
    maybe_switch-store r.1 (record ch { controller = r.0 })

pub sort_and_update-store :
    (now : ℕ) (ch : IceTransportChannel) → (sort_and_update_state now ch).0.store ≡ ch.store
unfolding sort_and_update_state maybe_start_pinging
sort_and_update-store now ch =
    let u = update_state-Updated (sorted ch) in u.same_store ∙ sorted-store ch

pub destroyed-IsCurrent :
    (now p : ℕ) (ch : IceTransportChannel) → IsCurrent (on_connection_destroyed now p ch).0
unfolding on_connection_destroyed
destroyed-IsCurrent now p ch =
    let removed = record ch { controller = Controller.on_connection_destroyed ch.controller p } in
    let u = update_state-Updated removed in
    if_keep (λ (d : Done). IsCurrent d.0) (is_selected ch.selected_connection p)
      (sort_and_update_state now (switch_selected_connection none removed)) (update_state removed)
      (sort_and_update-IsCurrent now (switch_selected_connection none removed)) u.current

pub destroyed-store :
    (now p : ℕ) (ch : IceTransportChannel) → (on_connection_destroyed now p ch).0.store ≡ ch.store
unfolding on_connection_destroyed switch_selected_connection
destroyed-store now p ch =
    let removed = record ch { controller = Controller.on_connection_destroyed ch.controller p } in
    let u = update_state-Updated removed in
    if_keep (λ (d : Done). d.0.store ≡ ch.store) (is_selected ch.selected_connection p)
      (sort_and_update_state now (record removed { selected_connection = none }))
      (update_state removed)
      (sort_and_update-store now (record removed { selected_connection = none })) u.same_store
