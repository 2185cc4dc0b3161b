-- ===== src/Stream/Manager/Stops.antt =====
-- Every way in which RtcStreamManager removes a stream keeps the invariant.
use xrtc_server.Base.{
  ℕ, ◌≡◌, refl, ap, ◌∙◌, ◌≢◌, inl, inr, [], ◌∷◌, Option, none, some, ◌==◌, arith, Bool-cases,
  Option-cases, ==_iff,
}
use Prim.Native.String.{String}
use xrtc_server.Stream.Manager.State.{
  RtcStreamType, push, pull, RtcStream, Ptr, Heap, Manager, UserStreamMap, find_push_stream,
  find_pull_stream, remove_push_stream, remove_pull_stream, remove_pull_stream_m, find_user,
  erase_user, non_empty, owned_by, delete_user,
}
use xrtc_server.Stream.Manager.Handlers.{
  remove_stream, stop_push, stop_pull, on_stream_exception, on_connection_state,
  PeerConnectionState, at_stream, new, connecting, connected, disconnected, failed, closed,
  is_transparent,
}
use xrtc_server.Stream.Manager.Invariant.{
  Inv, PlaysMany, AllPlay-store, Publishes-store, PlaysOne-store, PlaysMany-same,
  not-Publishes-PlaysMany, not-PlaysOne-PlaysMany, update-some,
}
use xrtc_server.Stream.Manager.Removal.{
  delete_push-Inv, delete_pull-Inv, find_user-PlaysMany, erase_user-AllPlay,
}

non_empty-some : (us vs : UserStreamMap) → non_empty us ≡ some vs → (us ≡ vs) × (vs ≢ [])
non_empty-some [] vs e = cc
non_empty-some (u ∷ us) vs e =
    let d : (u ∷ us) ≡ vs = cc in (d, λ f. let b : (u ∷ us) ≡ [] = d ∙ f in cc)

abbrev pub HasUid : Option RtcStream → ℕ → Type 0
HasUid none uid = ⊥
HasUid (some s) uid = uid ≡ s.uid

pub owned_by-some :
    (h : Heap) (o : Option Ptr) (uid : ℕ) (p : Ptr)
    → owned_by h o uid ≡ some p
    → (o ≡ some p) × HasUid (h p) uid
owned_by-some h none uid p e = cc
owned_by-some h (some q) uid p e = elim (Option-cases (h q)) [
  | inl f ↦ (let bad : none ≡ some p = rw (f, owned_by) at e in cc)
  | inr (s, f) ↦ elim (Bool-cases (uid == s.uid)) [
    | inl t ↦
        let d : q ≡ p = (let e' : some q ≡ some p = ground arith in cc) in
        let hp : h p ≡ some s = rw d at f in (ap some d, rw hp ((==_iff uid s.uid).0 t))
    | inr t ↦ (let bad : none ≡ some p = ground arith in cc)
  ]
]

module _ (m : Manager) (v : Inv m) (name : String) (us : UserStreamMap)
    (listed : m.multi_pull_streams name ≡ some us) where
  delete_user-Inv :
      (uid : ℕ) (o : Option Ptr) → find_user us uid ≡ o → Inv (delete_user m uid name us o)
  delete_user-Inv uid none e = record {
    push_ok = v.push_ok;
    pull_ok = v.pull_ok;
    multi_ok = λ j vs d. elim (update-some m.multi_pull_streams name (non_empty us) j vs d) [
      | inl (s, d') ↦
          let (same, full) = non_empty-some us vs d' in
          (full, rw (← s, ← same) (v.multi_ok name us listed).1)
      | inr (ne, d') ↦ v.multi_ok j vs d'
    ];
    fresh = v.fresh;
  }
  delete_user-Inv uid (some p) e = record {
    push_ok = λ j q d.
        Publishes-store m.heap j p q none
          (λ (s : p ≡ q).
            not-Publishes-PlaysMany (m.heap p) j name uid (rw s (v.push_ok j q d)) own)
          (v.push_ok j q d);
    pull_ok = λ j q d.
        PlaysOne-store m.heap j p q none
          (λ (s : p ≡ q). not-PlaysOne-PlaysMany (m.heap p) j name uid (rw s (v.pull_ok j q d)) own)
          (v.pull_ok j q d);
    multi_ok = λ j vs d.
        elim (update-some m.multi_pull_streams name (non_empty (erase_user us uid)) j vs d) [
          | inl (s, d') ↦
              let (same, full) = non_empty-some (erase_user us uid) vs d' in
              (
                full,
                rw (← s, ← same)
                    (erase_user-AllPlay m.heap name us uid p (v.multi_ok name us listed).1 e),
              )
          | inr (ne, d') ↦
              let (full, all) = v.multi_ok j vs d' in
              (
                full,
                AllPlay-store m.heap j vs p none
                    (λ u h. ne (PlaysMany-same (m.heap p) name j uid u own h).0) all,
              )
        ];
    fresh = λ q h. let f = v.fresh q h in ground arith;
  }
    where
      own : PlaysMany (m.heap p) name uid
      own = find_user-PlaysMany m.heap name us uid p (v.multi_ok name us listed).1 e

module _ (m : Manager) (v : Inv m) where
  pub remove_push_stream-Inv : (uid : ℕ) (name : String) → Inv (remove_push_stream m uid name)
  unfolding remove_push_stream find_push_stream
  remove_push_stream-Inv uid name =
      elim (Option-cases (owned_by m.heap (m.push_streams name) uid)) [
        | inl e ↦ rw e v
        | inr (p, e) ↦ rw e (delete_push-Inv m v name p (owned_by-some m.heap _ uid p e).0)
      ]

  pub remove_pull_stream-Inv : (uid : ℕ) (name : String) → Inv (remove_pull_stream m uid name)
  unfolding remove_pull_stream find_pull_stream
  remove_pull_stream-Inv uid name =
      elim (Option-cases (owned_by m.heap (m.pull_streams name) uid)) [
        | inl e ↦ rw e v
        | inr (p, e) ↦ rw e (delete_pull-Inv m v name p (owned_by-some m.heap _ uid p e).0)
      ]

  pub remove_pull_stream_m-Inv : (uid : ℕ) (name : String) → Inv (remove_pull_stream_m m uid name)
  unfolding remove_pull_stream_m
  remove_pull_stream_m-Inv uid name = elim (Option-cases (m.multi_pull_streams name)) [
    | inl e ↦ rw (e, remove_pull_stream_m) v
    | inr (us, e) ↦
        rw (e, remove_pull_stream_m) (delete_user-Inv m v name us e uid (find_user us uid) refl)
  ]

  pub remove_stream-Inv : (s : RtcStream) → Inv (remove_stream m s)
  unfolding remove_stream
  remove_stream-Inv s = by_type s s.stream_type refl
    where
      by_type : (s : RtcStream) (t : RtcStreamType) → s.stream_type ≡ t → Inv (remove_stream m s)
      by_type s push e = rw (e, remove_stream) (remove_push_stream-Inv s.uid s.stream_name)
      by_type s pull e = elim (Bool-cases s.transparent) [
        | inl t ↦ rw (e, remove_stream) (rw t (remove_pull_stream-Inv s.uid s.stream_name))
        | inr t ↦ rw (e, remove_stream) (rw t (remove_pull_stream_m-Inv s.uid s.stream_name))
      ]

  pub on_stream_exception-Inv : (p : Ptr) → Inv (on_stream_exception m p)
  unfolding on_stream_exception
  on_stream_exception-Inv p = elim (Option-cases (m.heap p)) [
    | inl e ↦ rw (e, at_stream) v
    | inr (s, e) ↦ rw (e, at_stream) (remove_stream-Inv s)
  ]

  pub on_connection_state-Inv :
      (p : Ptr) (st : PeerConnectionState) → Inv (on_connection_state m p st)
  unfolding on_connection_state
  on_connection_state-Inv p failed = unfold on_stream_exception in on_stream_exception-Inv p
  on_connection_state-Inv p new = v
  on_connection_state-Inv p connecting = v
  on_connection_state-Inv p connected = v
  on_connection_state-Inv p disconnected = v
  on_connection_state-Inv p closed = v

  pub stop_push-Inv : (uid : ℕ) (name : String) → Inv (stop_push m uid name).0
  unfolding stop_push
  stop_push-Inv uid name = remove_push_stream-Inv uid name

  pub stop_pull-Inv : (uid : ℕ) (name mode : String) → Inv (stop_pull m uid name mode).0
  unfolding stop_pull
  stop_pull-Inv uid name mode = elim (Bool-cases (is_transparent mode)) [
    | inl t ↦ rw t (remove_pull_stream-Inv uid name)
    | inr t ↦ rw t (remove_pull_stream_m-Inv uid name)
  ]
