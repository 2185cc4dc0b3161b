-- ===== src/Stream/Manager/Leak.antt =====
-- The stream that a second transparent player loses: CreatePullStream of rtc_stream_manager.cpp.
use xrtc_server.Base.{
  ℕ, ◌≡◌, refl, sym, subst, ap, ◌∙◌, ◌≢◌, true, none, some, inl, inr, Option-cases, Bool-cases,
  ◌==◌, ==_iff, arith,
}
use xrtc_server.Base.Int.{pos}
use Prim.Native.String.{String}
use text.Mathlib.TextPositions.{eq_refl}
use xrtc_server.Stream.Manager.State.{
  RtcStream, Ptr, Manager, find_push_stream, find_pull_stream, find_pull_stream_m,
  remove_pull_stream, owned_by,
}
use xrtc_server.Stream.Manager.Handlers.{
  create_pull_stream, is_transparent, drop_pull, place_pull, tracks,
}
use xrtc_server.Stream.Manager.Invariant.{
  Inv, PlaysOne, PlaysMany, PlaysOne-name, not-Publishes-PlaysOne, not-PlaysOne-PlaysMany,
}
use xrtc_server.Stream.Manager.Removal.{find_user-PlaysMany}
use xrtc_server.Stream.Manager.Creation.{create_pull_stream-Inv}

pub find_pull_stream_m-PlaysMany :
    (m : Manager) (u : ℕ) (j : String) (p : Ptr)
    → Inv m
    → find_pull_stream_m m u j ≡ some p
    → PlaysMany (m.heap p) j u
unfolding find_pull_stream_m
find_pull_stream_m-PlaysMany m u j p v e = elim (Option-cases (m.multi_pull_streams j)) [
  | inl d ↦ (let bad : none ≡ some p = rw (d, find_pull_stream_m) at e in cc)
  | inr (us, d) ↦
      find_user-PlaysMany m.heap j us u p (v.multi_ok j us d).1 (rw (d, find_pull_stream_m) at e)
]

create_pull_stream-place_pull :
    (m : Manager) (uid : ℕ) (name mode : String) (q : Ptr) (publisher : RtcStream)
    → m.push_streams name ≡ some q
    → m.heap q ≡ some publisher
    → create_pull_stream m uid name mode
      ≡ (place_pull (drop_pull m uid name mode) uid name mode (tracks publisher), pos 0)
unfolding create_pull_stream find_push_stream
create_pull_stream-place_pull m uid name mode q publisher e d =
    rw (e, create_pull_stream) (rw (d, create_pull_stream) refl)

-- A second player pulls a stream in transparent mode under another uid: the first player's object
-- stays allocated, and no registry refers to it any more after the call.
pub create_pull_stream-leaks :
    (m : Manager) (uid : ℕ) (name mode : String) (p q : Ptr) (s publisher : RtcStream)
    → Inv m
    → is_transparent mode ≡ true
    → m.push_streams name ≡ some q
    → m.heap q ≡ some publisher
    → m.pull_streams name ≡ some p
    → m.heap p ≡ some s
    → uid ≢ s.uid
    → ((create_pull_stream m uid name mode).0.heap p ≡ some s)
      × ((j : String) → (create_pull_stream m uid name mode).0.push_streams j ≢ some p)
      × ((j : String) → (create_pull_stream m uid name mode).0.pull_streams j ≢ some p)
      × ((u : ℕ) (j : String)
          → find_pull_stream_m (create_pull_stream m uid name mode).0 u j ≢ some p)
create_pull_stream-leaks m uid name mode p q s publisher v trans pubs there one here other = (
  lives,
  λ j d. not-Publishes-PlaysOne (m'.heap p) j name (v'.push_ok j p d) plays,
  λ j d.
      let j_name : j ≡ name = PlaysOne-name (m'.heap p) j name (v'.pull_ok j p d) plays in
      let d' : some m.next ≡ some p = sym entry ∙ (rw j_name at d) in
      old (let d'' : m.next ≡ p = cc in d''),
  λ u j d.
      not-PlaysOne-PlaysMany (m'.heap p) name j u plays
        (find_pull_stream_m-PlaysMany m' u j p v' d),
)
  where
    m' : Manager
    m' = (create_pull_stream m uid name mode).0

    v' : Inv m'
    v' = create_pull_stream-Inv m v uid name mode

    old : m.next ≡ p → ⊥
    old e =
        let f : m.heap p ≡ none = v.fresh p (omega arith) in
        let bad : some s ≡ none = sym here ∙ f in cc

    kept : remove_pull_stream m uid name ≡ m
    kept =
        unfold remove_pull_stream find_pull_stream in
        (let o : owned_by m.heap (m.pull_streams name) uid ≡ none = ground arith in rw o refl)

    dropped : drop_pull m uid name mode ≡ m
    dropped = rw trans kept

    placed : m' ≡ place_pull m uid name mode (tracks publisher)
    placed =
        ap (λ r. r.0) (create_pull_stream-place_pull m uid name mode q publisher pubs there)
        ∙ ap (λ x. place_pull x uid name mode (tracks publisher)) dropped

    lives : m'.heap p ≡ some s
    lives =
        ap (λ (x : Manager). x.heap p) placed
        ∙ rw trans (elim (Bool-cases (m.next == p)) [
          | inl t ↦ absurd (old ((==_iff m.next p).0 t))
          | inr f ↦ rw f here
        ])

    entry : m'.pull_streams name ≡ some m.next
    entry = ap (λ (x : Manager). x.pull_streams name) placed ∙ rw (trans, eq_refl name) refl

    plays : PlaysOne (m'.heap p) name
    plays = subst (λ o. PlaysOne o name) (here ∙ sym lives) (v.pull_ok name p one)
