-- ===== src/Stream/Manager/Lookup.antt =====
-- What the registries hold after a removal, and the stream that a second transparent player loses.
use xrtc_server.Base.{
  ℕ, ◌≡◌, refl, ◌∙◌, ◌≢◌, true, false, ◌&&◌, [], ◌∷◌, Option, none, some, inl, inr, Option-cases,
  Bool-cases, ◌==◌, ==_iff, ==_refl, if◌then◌else◌, arith,
}
use Prim.Native.String.{String}
use text.Mathlib.Text.{◌==◌ as str_eq}
use text.Mathlib.TextEquality.{eq_iff}
use text.Mathlib.TextPositions.{eq_refl}
use xrtc_server.Stream.Manager.State.{
  RtcStream, Ptr, Heap, Manager, UserStreamMap, update, store, non_empty, find_user, erase_user,
  find_push_stream, find_pull_stream_m, remove_pull_stream_m, remove_push_stream, owned_by,
  delete_user,
}
use xrtc_server.Stream.Manager.Handlers.{stop_pull, stop_push, is_transparent}
use xrtc_server.Stream.Manager.Invariant.{Inv, AllPlay}

find_user-erase_user_all :
    (h : Heap) (name : String) (us : UserStreamMap) (uid u : ℕ)
    → AllPlay h name us
    → find_user (erase_user us uid) u ≡ (if uid == u then none else find_user us u)
unfolding find_user erase_user
find_user-erase_user_all h name [] uid u all = ground arith
find_user-erase_user_all h name ((w, q) ∷ us) uid u (here, new, rest) =
    let ih = find_user-erase_user_all h name us uid u rest in
    elim (Bool-cases (w == uid)) [
      | inl t ↦
          let d : w ≡ uid = (==_iff w uid).0 t in
          rw t (elim (Bool-cases (uid == u)) [
            | inl s ↦ rw s (let e : w ≡ u = d ∙ (==_iff uid u).0 s in rw e at new)
            | inr s ↦ rw s (let f : (w == u) ≡ false = rw d s in rw f)
          ])
      | inr t ↦ rw t (ground (arith, ih))
    ]

find_user-non_empty :
    (us : UserStreamMap) (u : ℕ)
    → (elim (non_empty us) [ none ↦ none | some vs ↦ find_user vs u ]) ≡ find_user us u
unfolding find_user
find_user-non_empty [] u = refl
find_user-non_empty (x ∷ us) u = refl

-- Looking a player up after the players of one stream became `ws`.
find-set_users :
    (m : Manager) (h : Heap) (name j : String) (ws : UserStreamMap) (u : ℕ)
    → find_pull_stream_m
        (record m {
          multi_pull_streams = update m.multi_pull_streams name (non_empty ws);
          heap = h;
        })
        u
        j
      ≡ (if str_eq name j then find_user ws u else find_pull_stream_m m u j)
unfolding find_pull_stream_m
find-set_users m h name j ws u = elim (Bool-cases (str_eq name j)) [
  | inl t ↦ rw (t, find_pull_stream_m) (find_user-non_empty ws u)
  | inr f ↦ rw (f, find_pull_stream_m) refl
]

module _ (m : Manager) (v : Inv m) (uid : ℕ) (name : String) where
  find-remove_pull_stream_m :
      (u : ℕ) (j : String)
      → find_pull_stream_m (remove_pull_stream_m m uid name) u j
        ≡ (if str_eq name j && (uid == u) then none else find_pull_stream_m m u j)
  unfolding remove_pull_stream_m
  find-remove_pull_stream_m u j = elim (Option-cases (m.multi_pull_streams name)) [
    | inl e ↦ rw (e, remove_pull_stream_m) (absent e)
    | inr (us, e) ↦ rw (e, remove_pull_stream_m) (present us e (find_user us uid) refl)
  ]
    where
      same :
          (us : UserStreamMap)
          → m.multi_pull_streams name ≡ some us
          → str_eq name j ≡ true
          → find_pull_stream_m m u j ≡ find_user us u
      same us e t =
          unfold find_pull_stream_m in rw (← (eq_iff name j).0 t) (rw (e, find_pull_stream_m))

      absent :
          m.multi_pull_streams name ≡ none
          → find_pull_stream_m m u j
            ≡ (if str_eq name j && (uid == u) then none else find_pull_stream_m m u j)
      absent e = elim (Bool-cases (str_eq name j)) [
        | inr f ↦ rw f refl
        | inl t ↦
            let gone : find_pull_stream_m m u j ≡ none =
              unfold find_pull_stream_m in
              rw (← (eq_iff name j).0 t) (rw (e, find_pull_stream_m)) in
            rw (t, gone) (ground arith)
      ]

      present :
          (us : UserStreamMap)
          → m.multi_pull_streams name ≡ some us
          → (o : Option Ptr) → find_user us uid ≡ o
          → find_pull_stream_m (delete_user m uid name us o) u j
            ≡ (if str_eq name j && (uid == u) then none else find_pull_stream_m m u j)
      present us e none d =
          find-set_users m m.heap name j us u ∙ elim (Bool-cases (str_eq name j)) [
            | inr f ↦ rw f refl
            | inl t ↦
                rw (t, same us e t)
                  (elim (Bool-cases (uid == u)) [
                    | inl s ↦ rw s (rw (← (==_iff uid u).0 s) d)
                    | inr s ↦ rw s refl
                  ])
          ]
      present us e (some p) d =
          find-set_users m (store m.heap p none) name j (erase_user us uid) u
          ∙ elim (Bool-cases (str_eq name j)) [
            | inr f ↦ rw f refl
            | inl t ↦
                rw (t, same us e t)
                  (find_user-erase_user_all m.heap name us uid u (v.multi_ok name us e).1)
          ]

  -- A live player that stops is gone from its stream, and every other player is found as before:
  -- the same uid on other streams, and other uids on the same stream.
  pub stop_pull-removes :
      (mode : String)
      → is_transparent mode ≡ false
      → (u : ℕ) (j : String)
      → find_pull_stream_m (stop_pull m uid name mode).0 u j
        ≡ (if str_eq name j && (uid == u) then none else find_pull_stream_m m u j)
  unfolding stop_pull
  stop_pull-removes mode live u j = rw live (find-remove_pull_stream_m u j)

  -- Only its publisher can stop a stream: then the name is free and the object is deleted. Another
  -- uid changes nothing at all.
  pub stop_push-by_owner :
      (p : Ptr) (s : RtcStream)
      → find_push_stream m name ≡ some p
      → m.heap p ≡ some s
      → (uid ≡ s.uid
          → (find_push_stream (stop_push m uid name).0 name ≡ none)
            × ((stop_push m uid name).0.heap p ≡ none))
        × (uid ≢ s.uid → (stop_push m uid name).0 ≡ m)
  unfolding stop_push remove_push_stream find_push_stream
  stop_push-by_owner p s e here = (
    λ same.
        let o : owned_by m.heap (m.push_streams name) uid ≡ some p = ground arith in
        (rw o (rw (eq_refl name)), rw o (rw (==_refl p))),
    λ other. let o : owned_by m.heap (m.push_streams name) uid ≡ none = ground arith in rw o refl,
  )
