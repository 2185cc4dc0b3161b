-- ===== src/Stream/Manager/Creation.antt =====
-- CreatePushStream and CreatePullStream keep the invariant.
use xrtc_server.Base.{
  ℕ, suc, ◌≡◌, ◌≤◌, refl, ◌≢◌, inl, inr, false, List, [], Option, none, some, arith, Bool-cases,
  Option-cases, ==_refl,
}
use Prim.Native.String.{String}
use xrtc_server.Stream.Packet.{MediaType}
use xrtc_server.Stream.Manager.State.{
  pull, RtcStream, Ptr, Manager, UserStreamMap, store, users, StreamParams, find_push_stream,
  add_pull_stream_m, find_user, insert_user,
}
use xrtc_server.Stream.Manager.Handlers.{
  create_push_stream, create_pull_stream, drop_pull, place_push, place_pull, new_stream, tracks,
  is_transparent,
}
use xrtc_server.Stream.Manager.Invariant.{
  Inv, Publishes, PlaysOne, PlaysMany, AllPlay, AllPlay-store, Publishes-store, PlaysOne-store,
  update-some,
}
use xrtc_server.Stream.Manager.Removal.{delete_push-Inv}
use xrtc_server.Stream.Manager.Stops.{remove_pull_stream-Inv, remove_pull_stream_m-Inv}

-- Nothing registered lives at an address that was never given out.
module _ (m : Manager) (v : Inv m) where
  vacant : m.heap m.next ≡ none
  vacant = v.fresh m.next (omega arith)

  push_ne : (name : String) (q : Ptr) → m.push_streams name ≡ some q → m.next ≡ q → ⊥
  push_ne name q e s =
      let h : Publishes (m.heap m.next) name = rw s (v.push_ok name q e) in rw vacant at h

  pull_ne : (name : String) (q : Ptr) → m.pull_streams name ≡ some q → m.next ≡ q → ⊥
  pull_ne name q e s =
      let h : PlaysOne (m.heap m.next) name = rw s (v.pull_ok name q e) in rw vacant at h

  many_ne : (name : String) (uid : ℕ) → ¬ PlaysMany (m.heap m.next) name uid
  many_ne name uid h = rw vacant at h

  store_next-fresh :
      (o : Option RtcStream) (q : Ptr) → suc m.next ≤ q → store m.heap m.next o q ≡ none
  store_next-fresh o q h = let e = v.fresh q (omega arith) in ground arith

  store_next : (o : Option RtcStream) → store m.heap m.next o m.next ≡ o
  store_next o = rw (==_refl m.next)

  place_push-Inv : (uid : ℕ) (name mode : String) → Inv (place_push m uid name mode)
  place_push-Inv uid name mode = record {
    push_ok = λ j q d. elim (update-some m.push_streams name (some m.next) j q d) [
      | inl (s, e) ↦ let s' : m.next ≡ q = cc in rw (← s', store_next) (refl, s)
      | inr (ne, d') ↦ Publishes-store m.heap j m.next q _ (push_ne j q d') (v.push_ok j q d')
    ];
    pull_ok = λ j q d. PlaysOne-store m.heap j m.next q _ (pull_ne j q d) (v.pull_ok j q d);
    multi_ok = λ j us d.
        let (full, all) = v.multi_ok j us d in
        (full, AllPlay-store m.heap j us m.next _ (many_ne j) all);
    fresh = store_next-fresh _;
  }

  insert_user-AllPlay :
      (s : RtcStream) (us : UserStreamMap)
      → s.stream_type ≡ pull
      → s.transparent ≡ false
      → AllPlay m.heap s.stream_name us
      → AllPlay (store m.heap m.next (some s)) s.stream_name (insert_user us s.uid m.next)
        × (insert_user us s.uid m.next ≢ [])
  unfolding insert_user
  insert_user-AllPlay s us kind live all = elim (Option-cases (find_user us s.uid)) [
    | inl e ↦ rw e (
      (
        rw store_next (kind, refl, live, refl),
        e,
        AllPlay-store m.heap s.stream_name us m.next _ (many_ne s.stream_name) all,
      ),
      λ d. cc,
    )
    | inr (p, e) ↦ rw e (
      AllPlay-store m.heap s.stream_name us m.next _ (many_ne s.stream_name) all,
      λ d. listed_ne us s.uid p e d,
    )
  ]
    where
      listed_ne : (us : UserStreamMap) (uid : ℕ) (p : Ptr) → find_user us uid ≡ some p → us ≢ []
      listed_ne us uid p e d =
          let bad : find_user [] uid ≡ some p = rw d at e in unfold find_user in cc

  users-AllPlay : (name : String) → AllPlay m.heap name (users (m.multi_pull_streams name))
  users-AllPlay name = elim (Option-cases (m.multi_pull_streams name)) [
    | inl e ↦ rw e tt
    | inr (us, e) ↦ rw e (v.multi_ok name us e).1
  ]

  place_pull-Inv :
      (uid : ℕ) (name mode : String) (source : MediaType → List StreamParams)
      → Inv (place_pull m uid name mode source)
  unfolding add_pull_stream_m
  place_pull-Inv uid name mode source = elim (Bool-cases (is_transparent mode)) [
    | inl t ↦ rw t (record {
      push_ok = λ j q d. Publishes-store m.heap j m.next q _ (push_ne j q d) (v.push_ok j q d);
      pull_ok = λ j q d. elim (update-some m.pull_streams name (some m.next) j q d) [
        | inl (s, e) ↦ let s' : m.next ≡ q = cc in rw (← s', store_next) (refl, s, refl)
        | inr (ne, d') ↦ PlaysOne-store m.heap j m.next q _ (pull_ne j q d') (v.pull_ok j q d')
      ];
      multi_ok = λ j us d.
          let (full, all) = v.multi_ok j us d in
          (full, AllPlay-store m.heap j us m.next _ (many_ne j) all);
      fresh = store_next-fresh _;
    })
    | inr t ↦ rw t (record {
      push_ok = λ j q d. Publishes-store m.heap j m.next q _ (push_ne j q d) (v.push_ok j q d);
      pull_ok = λ j q d. PlaysOne-store m.heap j m.next q _ (pull_ne j q d) (v.pull_ok j q d);
      multi_ok = λ j us d. elim (update-some m.multi_pull_streams name _ j us d) [
        | inl (s, e) ↦
            let (all, full) =
              insert_user-AllPlay (new_stream pull uid name false source)
                (users (m.multi_pull_streams name)) refl refl (users-AllPlay name) in
            let same : insert_user (users (m.multi_pull_streams name)) uid m.next ≡ us = cc in
            rw (← s, ← same) (full, all)
        | inr (ne, d') ↦
            let (full, all) = v.multi_ok j us d' in
            (full, AllPlay-store m.heap j us m.next _ (many_ne j) all)
      ];
      fresh = store_next-fresh _;
    })
  ]

module _ (m : Manager) (v : Inv m) where
  pub create_push_stream-Inv :
      (uid : ℕ) (name mode : String) → Inv (create_push_stream m uid name mode).0
  unfolding create_push_stream find_push_stream
  create_push_stream-Inv uid name mode = elim (Option-cases (m.push_streams name)) [
    | inl e ↦ rw e (place_push-Inv m v uid name mode)
    | inr (p, e) ↦ rw e (place_push-Inv _ (delete_push-Inv m v name p e) uid name mode)
  ]

  pub drop_pull-Inv : (uid : ℕ) (name mode : String) → Inv (drop_pull m uid name mode)
  drop_pull-Inv uid name mode = elim (Bool-cases (is_transparent mode)) [
    | inl t ↦ rw t (remove_pull_stream-Inv m v uid name)
    | inr t ↦ rw t (remove_pull_stream_m-Inv m v uid name)
  ]

  pub create_pull_stream-Inv :
      (uid : ℕ) (name mode : String) → Inv (create_pull_stream m uid name mode).0
  unfolding create_pull_stream find_push_stream
  create_pull_stream-Inv uid name mode = elim (Option-cases (m.push_streams name)) [
    | inl e ↦ rw (e, create_pull_stream) v
    | inr (p, e) ↦ elim (Option-cases (m.heap p)) [
      | inl f ↦ rw (e, create_pull_stream) (rw (f, create_pull_stream) v)
      | inr (s, f) ↦
          rw (e, create_pull_stream)
            (rw (f, create_pull_stream)
              (place_pull-Inv _ (drop_pull-Inv uid name mode) uid name mode (tracks s)))
    ]
  ]
