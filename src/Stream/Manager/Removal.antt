-- ===== src/Stream/Manager/Removal.antt =====
-- Removing streams keeps the invariant: RemovePushStream, RemovePullStream and RemovePullStreamM.
use xrtc_server.Base.{
  ℕ, ◌≡◌, ◌≤◌, refl, inl, inr, true, false, [], ◌∷◌, none, some, ◌==◌, arith, Bool-cases, ==_iff,
}
use Prim.Native.String.{String}
use xrtc_server.Stream.Manager.State.{
  Ptr, Heap, Manager, UserStreamMap, store, find_user, erase_user, delete_push, delete_pull,
}
use xrtc_server.Stream.Manager.Invariant.{
  Inv, Publishes, PlaysOne, PlaysMany, AllPlay, AllPlay-store, Publishes-store, PlaysOne-store,
  Publishes-name, PlaysOne-name, PlaysMany-same, not-Publishes-PlaysOne, not-Publishes-PlaysMany,
  not-PlaysOne-PlaysMany, update-some,
}

module _ (m : Manager) (v : Inv m) where
  store-fresh : (p : Ptr) → (q : Ptr) → m.next ≤ q → store m.heap p none q ≡ none
  store-fresh p q h = let e = v.fresh q h in ground arith

  pub delete_push-Inv :
      (name : String) (p : Ptr) → m.push_streams name ≡ some p → Inv (delete_push m name (some p))
  delete_push-Inv name p e = record {
    push_ok = λ j q d. elim (update-some m.push_streams name none j q d) [
      | inl (_, bad) ↦ cc
      | inr (ne, d') ↦
          Publishes-store m.heap j p q none
            (λ (s : p ≡ q). ne (Publishes-name (m.heap p) name j own (rw s (v.push_ok j q d'))))
            (v.push_ok j q d')
    ];
    pull_ok = λ j q d.
        PlaysOne-store m.heap j p q none
          (λ (s : p ≡ q). not-Publishes-PlaysOne (m.heap p) name j own (rw s (v.pull_ok j q d)))
          (v.pull_ok j q d);
    multi_ok = λ j us d.
        let (full, all) = v.multi_ok j us d in
        (
          full,
          AllPlay-store m.heap j us p none (λ u. not-Publishes-PlaysMany (m.heap p) name j u own)
              all,
        );
    fresh = store-fresh p;
  }
    where
      own : Publishes (m.heap p) name
      own = v.push_ok name p e

  pub delete_pull-Inv :
      (name : String) (p : Ptr) → m.pull_streams name ≡ some p → Inv (delete_pull m name (some p))
  delete_pull-Inv name p e = record {
    push_ok = λ j q d.
        Publishes-store m.heap j p q none
          (λ (s : p ≡ q). not-Publishes-PlaysOne (m.heap p) j name (rw s (v.push_ok j q d)) own)
          (v.push_ok j q d);
    pull_ok = λ j q d. elim (update-some m.pull_streams name none j q d) [
      | inl (_, bad) ↦ cc
      | inr (ne, d') ↦
          PlaysOne-store m.heap j p q none
            (λ (s : p ≡ q). ne (PlaysOne-name (m.heap p) name j own (rw s (v.pull_ok j q d'))))
            (v.pull_ok j q d')
    ];
    multi_ok = λ j us d.
        let (full, all) = v.multi_ok j us d in
        (
          full,
          AllPlay-store m.heap j us p none (λ u. not-PlaysOne-PlaysMany (m.heap p) name j u own)
              all,
        );
    fresh = store-fresh p;
  }
    where
      own : PlaysOne (m.heap p) name
      own = v.pull_ok name p e

-- What `find_user` gives is a player of that uid, and erasing leaves the others.
pub find_user-PlaysMany :
    (h : Heap) (name : String) (us : UserStreamMap) (uid : ℕ) (p : Ptr)
    → AllPlay h name us
    → find_user us uid ≡ some p
    → PlaysMany (h p) name uid
unfolding find_user
find_user-PlaysMany h name [] uid p all e = cc
find_user-PlaysMany h name ((u, q) ∷ us) uid p (here, new, rest) e = elim (Bool-cases (u == uid)) [
  | inl t ↦
      let e' : q ≡ p = ground arith in let t' : u ≡ uid = (==_iff u uid).0 t in rw (← e', ← t') here
  | inr f ↦ find_user-PlaysMany h name us uid p rest (rw f at e)
]

pub find_user-erase_user :
    (us : UserStreamMap) (uid u : ℕ)
    → find_user us u ≡ none
    → find_user (erase_user us uid) u ≡ none
unfolding find_user erase_user
find_user-erase_user [] uid u e = refl
find_user-erase_user ((w, q) ∷ us) uid u e = ground (arith, find_user-erase_user us uid u)

-- A uid that is not listed names no player of the list, so erasing the object of another keeps all.
keep_others :
    (h : Heap) (name : String) (us : UserStreamMap) (uid : ℕ) (p : Ptr)
    → PlaysMany (h p) name uid
    → find_user us uid ≡ none
    → AllPlay h name us
    → AllPlay (store h p none) name us
unfolding find_user
keep_others h name [] uid p own e all = tt
keep_others h name ((u, q) ∷ us) uid p own e (here, new, rest) = elim (Bool-cases (u == uid)) [
  | inl t ↦ cc (the_bad t)
  | inr f ↦ (play f, new, keep_others h name us uid p own (rw f at e) rest)
]
  where
    the_bad : u == uid ≡ true → some q ≡ none
    the_bad t = rw t at e

    play : u == uid ≡ false → PlaysMany (store h p none q) name u
    play f = elim (Bool-cases (p == q)) [
      | inl t ↦
          let d : p ≡ q = (==_iff p q).0 t in
          let same : uid ≡ u = (PlaysMany-same (h p) name name uid u own (rw d here)).1 in
          absurd (ground arith)
      | inr g ↦ rw g here
    ]

pub erase_user-AllPlay :
    (h : Heap) (name : String) (us : UserStreamMap) (uid : ℕ) (p : Ptr)
    → AllPlay h name us
    → find_user us uid ≡ some p
    → AllPlay (store h p none) name (erase_user us uid)
unfolding find_user erase_user
erase_user-AllPlay h name [] uid p all e = tt
erase_user-AllPlay h name ((u, q) ∷ us) uid p (here, new, rest) e = elim (Bool-cases (u == uid)) [
  | inl t ↦
      let e' : q ≡ p = ground arith in
      let t' : u ≡ uid = (==_iff u uid).0 t in
      rw (t, ← e') (keep_others h name us u q here new rest)
  | inr f ↦
      let e' : find_user us uid ≡ some p = rw f at e in
      rw f
        (other f e', find_user-erase_user us uid u new, erase_user-AllPlay h name us uid p rest e')
]
  where
    other : u == uid ≡ false → find_user us uid ≡ some p → PlaysMany (store h p none q) name u
    other f e' = elim (Bool-cases (p == q)) [
      | inl t ↦
          let d : p ≡ q = (==_iff p q).0 t in
          let same : uid ≡ u =
            (PlaysMany-same (h p) name name uid u (find_user-PlaysMany h name us uid p rest e')
              (rw d here)).1 in
          absurd (ground arith)
      | inr g ↦ rw g here
    ]
