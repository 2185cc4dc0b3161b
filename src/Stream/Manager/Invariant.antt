-- ===== src/Stream/Manager/Invariant.antt =====
-- The registries of src/stream/rtc_stream_manager.cpp point to live streams of the right kind.
use xrtc_server.Base.{
  ℕ, ◌≡◌, ◌≤◌, sym, ◌∙◌, ◌≢◌, ◌⊎◌, inl, inr, true, false, [], ◌∷◌, Option, none, some, ◌==◌, arith,
  Bool-cases, ==_iff,
}
use Prim.Native.String.{String}
use text.Mathlib.Text.{◌==◌ as str_eq}
use text.Mathlib.TextEquality.{eq_iff}
use xrtc_server.Stream.Manager.State.{
  push, pull, RtcStream, Ptr, Heap, Manager, UserStreamMap, update, store, find_user,
}

-- What lives at an address: the publisher of a stream, its transparent player, a live player.
abbrev pub Publishes : Option RtcStream → String → Type 0
Publishes none name = ⊥
Publishes (some s) name = (s.stream_type ≡ push) × (s.stream_name ≡ name)

abbrev pub PlaysOne : Option RtcStream → String → Type 0
PlaysOne none name = ⊥
PlaysOne (some s) name = (s.stream_type ≡ pull) × (s.stream_name ≡ name) × (s.transparent ≡ true)

abbrev pub PlaysMany : Option RtcStream → String → ℕ → Type 0
PlaysMany none name uid = ⊥
PlaysMany (some s) name uid =
    (s.stream_type ≡ pull) × (s.stream_name ≡ name) × (s.transparent ≡ false) × (s.uid ≡ uid)

-- The players of one stream are live, and no uid is listed twice.
abbrev pub AllPlay : Heap → String → UserStreamMap → Type 0
AllPlay h name [] = Unit {0}
AllPlay h name ((uid, p) ∷ us) =
    PlaysMany (h p) name uid × (find_user us uid ≡ none) × AllPlay h name us

pub record Inv (m : Manager) : Type 0 where
  pub push_ok : (name : String) (p : Ptr) → m.push_streams name ≡ some p → Publishes (m.heap p) name
  pub pull_ok : (name : String) (p : Ptr) → m.pull_streams name ≡ some p → PlaysOne (m.heap p) name
  pub multi_ok :
      (name : String) (us : UserStreamMap)
      → m.multi_pull_streams name ≡ some us
      → (us ≢ []) × AllPlay m.heap name us
  pub fresh : (p : Ptr) → m.next ≤ p → m.heap p ≡ none

-- A change at an address that holds no player of the stream does not touch its players.
pub AllPlay-store :
    (h : Heap) (name : String) (us : UserStreamMap) (p : Ptr) (v : Option RtcStream)
    → ((uid : ℕ) → ¬ PlaysMany (h p) name uid)
    → AllPlay h name us
    → AllPlay (store h p v) name us
AllPlay-store h name [] p v other all = tt
AllPlay-store h name ((uid, q) ∷ us) p v other (here, new, rest) =
    (play, new, AllPlay-store h name us p v other rest)
  where
    play : PlaysMany (store h p v q) name uid
    play = elim (Bool-cases (p == q)) [
      | inl e ↦ absurd (other uid (let d : p ≡ q = (==_iff p q).0 e in rw d here))
      | inr e ↦ rw e here
    ]

pub Publishes-store :
    (h : Heap) (name : String) (p q : Ptr) (v : Option RtcStream)
    → (p ≡ q → ⊥)
    → Publishes (h q) name
    → Publishes (store h p v q) name
Publishes-store h name p q v ne here = let e : (p == q) ≡ false = ground arith in rw e here

pub PlaysOne-store :
    (h : Heap) (name : String) (p q : Ptr) (v : Option RtcStream)
    → (p ≡ q → ⊥)
    → PlaysOne (h q) name
    → PlaysOne (store h p v q) name
PlaysOne-store h name p q v ne here = let e : (p == q) ≡ false = ground arith in rw e here

-- The three roles exclude one another, and each fixes the stream's name.
pub Publishes-name : (o : Option RtcStream) (a b : String) → Publishes o a → Publishes o b → a ≡ b
Publishes-name (some s) a b h k = sym h.1 ∙ k.1
Publishes-name none a b h k = absurd h

pub PlaysOne-name : (o : Option RtcStream) (a b : String) → PlaysOne o a → PlaysOne o b → a ≡ b
PlaysOne-name (some s) a b h k = sym h.1 ∙ k.1
PlaysOne-name none a b h k = absurd h

pub PlaysMany-same :
    (o : Option RtcStream) (a b : String) (u v : ℕ)
    → PlaysMany o a u
    → PlaysMany o b v
    → (a ≡ b) × (u ≡ v)
PlaysMany-same (some s) a b u v h k = (sym h.1 ∙ k.1, sym h.3 ∙ k.3)
PlaysMany-same none a b u v h k = absurd h

pub not-Publishes-PlaysOne : (o : Option RtcStream) (a b : String) → Publishes o a → ¬ PlaysOne o b
not-Publishes-PlaysOne (some s) a b h k = cc (h.0, k.0)
not-Publishes-PlaysOne none a b h k = absurd h

pub not-Publishes-PlaysMany :
    (o : Option RtcStream) (a b : String) (u : ℕ) → Publishes o a → ¬ PlaysMany o b u
not-Publishes-PlaysMany (some s) a b u h k = cc (h.0, k.0)
not-Publishes-PlaysMany none a b u h k = absurd h

pub not-PlaysOne-PlaysMany :
    (o : Option RtcStream) (a b : String) (u : ℕ) → PlaysOne o a → ¬ PlaysMany o b u
not-PlaysOne-PlaysMany (some s) a b u h k = cc (h.2, k.2)
not-PlaysOne-PlaysMany none a b u h k = absurd h

-- What a registry holds after one entry was changed.
pub update-some :
    {V : Type 0} (m : String → Option V) (k : String) (o : Option V) (j : String) (v : V)
    → update m k o j ≡ some v
    → ((k ≡ j) × (o ≡ some v)) ⊎ ((k ≢ j) × (m j ≡ some v))
update-some m k o j v e = elim (Bool-cases (str_eq k j)) [
  | inl t ↦ inl ((eq_iff k j).0 t, (rw t at e))
  | inr f ↦ inr (λ d. (let t : str_eq k j ≡ true = (eq_iff k j).1 d in cc), (rw f at e))
]
