-- ===== src/Ice/Channel/Signals.antt =====
-- Through the signals of its connections a channel of src/ice/ice_transport_channel.cpp stays current.
use xrtc_server.Base.{
  ℕ, ◌≡◌, refl, inl, inr, Bool, not, List, [], ◌∷◌, Option, none, some, ◌==◌, ==_iff, ==_refl,
  if_true, if_false, Bool-cases, sym, ap, subst, ◌∙◌,
}
use xrtc_server.Ice.Connection
use xrtc_server.Ice.Connection.{
  IceConnection, Signal, state_change, connection_destroy, Survival, active, ping,
  maybe_set_remote_ice_params,
}
use xrtc_server.Ice.Connection.Announced.{Agree, Announced, last_seen}
use xrtc_server.Ice.Controller.{View, any}
use xrtc_server.Ice.Channel.{
  IceTransportChannel, rank, put, selected_writable, compute_ice_transport_state,
  sort_and_update_state, on_connection_destroyed, on_signal, on_signals, leave, run_connection,
}
use xrtc_server.Ice.Channel.Current.{
  IsCurrent, sort_and_update-IsCurrent, sort_and_update-store, destroyed-IsCurrent, destroyed-store,
}

any_eq : (f g : ℕ → Bool) (ps : List ℕ) → ((p : ℕ) → f p ≡ g p) → any f ps ≡ any g ps
unfolding any
any_eq f g [] h = refl
any_eq f g (p ∷ ps) h = rw (h p, any_eq f g ps h) refl

-- A property of connections that the write state and the receiving flag determine does not change
-- where a connection is replaced by one that agrees with it.
replaced :
    (f : IceConnection → Bool) (p : ℕ) (c : IceConnection) (ch : IceTransportChannel)
    → f c ≡ f (ch.store p)
    → (q : ℕ) → f ((put p c ch).store q) ≡ f (ch.store q)
replaced f p c ch h q = elim (Bool-cases (q == p)) [
  | inl e ↦
      if_true (λ (d : IceConnection). f d ≡ f (ch.store q)) (q == p) c (ch.store q) e
        (h ∙ ap (λ (r : ℕ). f (ch.store r)) (sym ((==_iff q p).0 e)))
  | inr e ↦ if_false (λ (d : IceConnection). f d ≡ f (ch.store q)) (q == p) c (ch.store q) e refl
]

selected_eq :
    (o : Option ℕ) (s t : View)
    → ((p : ℕ) → Connection.writable (s p) ≡ Connection.writable (t p))
    → selected_writable s o ≡ selected_writable t o
selected_eq none s t h = refl
selected_eq (some p) s t h = h p

pub put-IsCurrent :
    (p : ℕ) (c : IceConnection) (ch : IceTransportChannel)
    → IsCurrent ch
    → Agree c (ch.store p)
    → IsCurrent (put p c ch)
put-IsCurrent p c ch h a =
    let writes =
      replaced Connection.writable p c ch
        (ap (λ (w : Connection.WriteState). Connection.rank w == 0) a.0) in
    let actives =
      replaced active p c ch
        (ap (λ (w : Connection.WriteState). not (Connection.rank w == 3)) a.0) in
    let receives = replaced (λ (d : IceConnection). d.receiving) p c ch a.1 in
    let ps = ch.controller.connections in
    record {
      writable_now =
          h.writable_now
          ∙ sym (selected_eq ch.selected_connection (put p c ch).store ch.store writes);
      receiving_now =
          h.receiving_now
          ∙ sym (
              any_eq (λ (q : ℕ). ((put p c ch).store q).receiving)
                (λ (q : ℕ). (ch.store q).receiving) ps receives);
      state_now =
          h.state_now
          ∙ ap
              (λ (b : Bool). rank (
                compute_ice_transport_state ch.had_connection b ch.has_been_connection ch.writable))
              (sym (
                any_eq (λ (q : ℕ). active ((put p c ch).store q)) (λ (q : ℕ). active (ch.store q))
                  ps actives));
    }

put-same : (p : ℕ) (c : IceConnection) (ch : IceTransportChannel) → (put p c ch).store p ≡ c
put-same p c ch = if_true (λ (d : IceConnection). d ≡ c) (p == p) c (ch.store p) (==_refl p) refl

on_signals-IsCurrent :
    (now p : ℕ) (signals : List Signal) (ch : IceTransportChannel)
    → IsCurrent ch
    → IsCurrent (on_signals now p signals ch).0
      × ((on_signals now p signals ch).0.store p ≡ last_seen (ch.store p) signals)
unfolding on_signals on_signal
on_signals-IsCurrent now p [] ch h = (h, refl)
on_signals-IsCurrent now p (state_change c ∷ signals) ch h =
    let d = (sort_and_update_state now (put p c ch)).0 in
    let seen : d.store p ≡ c =
      ap (λ (s : View). s p) (sort_and_update-store now (put p c ch)) ∙ put-same p c ch in
    let (current, last) =
      on_signals-IsCurrent now p signals d (sort_and_update-IsCurrent now (put p c ch)) in
    (current, last ∙ ap (λ (b : IceConnection). last_seen b signals) seen)
on_signals-IsCurrent now p (connection_destroy c ∷ signals) ch h =
    let d = (on_connection_destroyed now p (put p c ch)).0 in
    let seen : d.store p ≡ c =
      ap (λ (s : View). s p) (destroyed-store now p (put p c ch)) ∙ put-same p c ch in
    let (current, last) =
      on_signals-IsCurrent now p signals d (destroyed-IsCurrent now p (put p c ch)) in
    (current, last ∙ ap (λ (b : IceConnection). last_seen b signals) seen)

leave-IsCurrent :
    (p : ℕ) (o : Option IceConnection) (signals : List Signal) (c : IceConnection)
    (ch : IceTransportChannel)
    → IsCurrent ch
    → ch.store p ≡ last_seen c signals
    → Announced c (o, signals)
    → IsCurrent (leave p o ch)
leave-IsCurrent p none signals c ch h e a = h
leave-IsCurrent p (some d) signals c ch h e a = put-IsCurrent p d ch h (subst (Agree d) (sym e) a)

-- An operation of a connection that announces what it changes leaves the channel current.
pub run_connection-IsCurrent :
    (now p : ℕ) (s : Survival) (ch : IceTransportChannel)
    → IsCurrent ch
    → Announced (ch.store p) s
    → IsCurrent (run_connection now p s ch).0
unfolding run_connection
run_connection-IsCurrent now p (survivor, signals) ch h a =
    let (current, seen) = on_signals-IsCurrent now p signals ch h in
    leave-IsCurrent p survivor signals (ch.store p) (on_signals now p signals ch).0 current seen a
