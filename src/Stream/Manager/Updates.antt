-- ===== src/Stream/Manager/Updates.antt =====
-- SetAnswer of rtc_stream_manager.cpp, and what replaces a stream by one of the same role.
use xrtc_server.Base.{
  ℕ, ◌≡◌, refl, subst, ◌∙◌, inl, inr, List, [], ◌∷◌, Option, none, some, ◌==◌, Bool-cases,
  Option-cases, ==_iff,
}
use Prim.Native.String.{String}
use text.Mathlib.Text.{◌==◌ as str_eq}
use xrtc_server.Stream.Packet.{MediaType}
use xrtc_server.Stream.Push.{PushStream}
use xrtc_server.Stream.Manager.State.{
  RtcStream, Ptr, Heap, Manager, UserStreamMap, store, StreamParams,
}
use xrtc_server.Stream.Manager.Handlers.{set_answer, set_remote}
use xrtc_server.Stream.Manager.Invariant.{Inv, Publishes, PlaysOne, PlaysMany, AllPlay}

-- An object that is replaced by one of the same identity keeps every role.
store-keeps {ℓ} :
    (P : Option RtcStream → Type ℓ) (h : Heap) (p q : Ptr) (o : Option RtcStream)
    → (P (h p) → P o)
    → P (h q)
    → P (store h p o q)
store-keeps P h p q o keep here = elim (Bool-cases (p == q)) [
  | inl t ↦ let d : p ≡ q = (==_iff p q).0 t in rw t (keep (rw d here))
  | inr t ↦ rw t here
]

AllPlay-keeps :
    (h : Heap) (name : String) (us : UserStreamMap) (p : Ptr) (o : Option RtcStream)
    → ((uid : ℕ) → PlaysMany (h p) name uid → PlaysMany o name uid)
    → AllPlay h name us
    → AllPlay (store h p o) name us
AllPlay-keeps h name [] p o keep all = tt
AllPlay-keeps h name ((u, q) ∷ us) p o keep (here, new, rest) = (
  store-keeps (λ x. PlaysMany x name u) h p q o (keep u) here,
  new,
  AllPlay-keeps h name us p o keep rest,
)

abbrev pub set_sender : Manager → Ptr → RtcStream → PushStream → Manager
set_sender m p s sender = record m { heap = store m.heap p (some (record s { sender = sender })) }

module _ (m : Manager) (v : Inv m) where
  -- Replacing the object of a stream by one with the same role.
  replace-Inv :
      (p : Ptr) (s s' : RtcStream)
      → m.heap p ≡ some s
      → s'.stream_type ≡ s.stream_type
      → s'.uid ≡ s.uid
      → s'.stream_name ≡ s.stream_name
      → s'.transparent ≡ s.transparent
      → Inv (record m { heap = store m.heap p (some s') })
  replace-Inv p s s' e kind uid name mode = record {
    push_ok = λ j q d.
        store-keeps (λ x. Publishes x j) m.heap p q _
          (λ h. let (a, b) = as_s (λ x. Publishes x j) h in (kind ∙ a, name ∙ b)) (v.push_ok j q d);
    pull_ok = λ j q d.
        store-keeps (λ x. PlaysOne x j) m.heap p q _
          (λ h. let (a, b, f) = as_s (λ x. PlaysOne x j) h in (kind ∙ a, name ∙ b, mode ∙ f))
          (v.pull_ok j q d);
    multi_ok = λ j us d.
        let (full, all) = v.multi_ok j us d in
        (
          full,
          AllPlay-keeps m.heap j us p _
              (λ u h.
                let (a, b, f, g) = as_s (λ x. PlaysMany x j u) h in
                (kind ∙ a, name ∙ b, mode ∙ f, uid ∙ g))
              all,
        );
    fresh = λ q h.
        store-keeps (λ x. x ≡ none) m.heap p q _
          (λ h. let bad : some s ≡ none = as_s (λ x. x ≡ none) h in cc) (v.fresh q h);
  }
    where
      as_s : (P : Option RtcStream → Type 0) → P (m.heap p) → P (some s)
      as_s P h = subst P e h

  set_remote-Inv :
      (parse : String → MediaType → Option (List StreamParams)) (o : Option Ptr) (uid : ℕ)
      (answer : String)
      → Inv (set_remote parse m o uid answer).0
  unfolding set_remote
  set_remote-Inv parse none uid answer = v
  set_remote-Inv parse (some p) uid answer = elim (Option-cases (m.heap p)) [
    | inl e ↦ rw (e, set_remote) v
    | inr (s, e) ↦ elim (Bool-cases (uid == s.uid)) [
      | inr f ↦ rw (e, set_remote) (rw f v)
      | inl t ↦ rw (e, set_remote) (rw t (replace-Inv p s _ e refl refl refl refl))
    ]
  ]

  pub set_sender-Inv :
      (p : Ptr) (s : RtcStream) (sender : PushStream)
      → m.heap p ≡ some s
      → Inv (set_sender m p s sender)
  set_sender-Inv p s sender e = replace-Inv p s _ e refl refl refl refl

  pub set_answer-Inv :
      (parse : String → MediaType → Option (List StreamParams)) (uid : ℕ)
      (name answer stream_type mode : String)
      → Inv (set_answer parse m uid name answer stream_type mode).0
  unfolding set_answer
  set_answer-Inv parse uid name answer stream_type mode =
      elim (Bool-cases (str_eq "push" stream_type)) [
        | inl t ↦ rw t (set_remote-Inv parse _ uid answer)
        | inr f ↦ rw f (elim (Bool-cases (str_eq "pull" stream_type)) [
          | inl t ↦ rw t (set_remote-Inv parse _ uid answer)
          | inr g ↦ rw g v
        ])
      ]
