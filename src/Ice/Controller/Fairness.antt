-- ===== src/Ice/Controller/Fairness.antt =====
-- Every connection of src/ice/ice_controller.cpp is pinged in its turn.
use xrtc_server.Base.{
  ℕ, suc, ◌≤◌, ◌≡◌, refl, Bool, true, ◌&&◌, List, [], ◌∷◌, ◌==◌, Option, none, some, count, length,
  All, if◌then◌else◌, arith, inl, inr, ◌⊎◌, Bool-cases, if_true, ==_iff, sym, subst, ap, is_some,
}
use xrtc_server.Ice.Controller.{
  View, IceController, any, contains, erase, set_insert, set_insert_all, has_credentials, is_weak,
  is_pingable, more_pingable, find_oldest, new_turn, find_beside, find_next_pingable_connection,
  mark_connection_pinged,
}
use xrtc_server.Ice.Controller.Sets.{count-erase, contains-count}
use xrtc_server.Ice.Controller.Partition.{IsPartition, find_oldest-listed, marked-IsPartition}

-- A turn of the timer that pings: what is found is marked, as OnCheckAndPing does.
pub record Turn : Type 0 where
  pub view : View
  pub now : ℕ

abbrev pub find_turn : IceController → Turn → IceController × Option ℕ
find_turn s t = find_next_pingable_connection t.view s t.now

-- The connections that are pinged, turn by turn.
unfoldable pub pings : IceController → List Turn → List (Option ℕ)
pings s [] = []
pings s (t ∷ ts) =
    (find_turn s t).1 ∷ pings (mark_connection_pinged (find_turn s t).0 (find_turn s t).1) ts

-- The peer's credentials are known for every connection.
abbrev pub Credited : Turn → Type 0
Credited t = (p : ℕ) → has_credentials t.view p ≡ true

pub data Pinged (p : ℕ) : List (Option ℕ) → Type 0 where
  here : (rest : List (Option ℕ)) → Pinged p (some p ∷ rest)
  later : (o : Option ℕ) (rest : List (Option ℕ)) → Pinged p rest → Pinged p (o ∷ rest)

pingable :
    (view : View) (s : IceController) (p now : ℕ)
    → s.selected_connection ≡ none
    → has_credentials view p ≡ true
    → is_pingable view s p now ≡ true
unfolding is_pingable is_weak
pingable view s p now e h = ground arith

-- A pingable connection leaves something found.
keeps_found :
    (view : View) (p : ℕ) (test : Bool) (found : Option ℕ)
    → test ≡ true
    → is_some (if test && more_pingable view p found then some p else found) ≡ true
keeps_found view p test none e = rw e refl
keeps_found view p test (some q) e = ground arith

found_some :
    (view : View) (s : IceController) (now : ℕ) (ps : List ℕ) (found : Option ℕ)
    → s.selected_connection ≡ none
    → ((p : ℕ) → has_credentials view p ≡ true)
    → (is_some found ≡ true) ⊎ (1 ≤ length ps)
    → (p : ℕ) × (find_oldest view s now ps found ≡ some p)
unfolding find_oldest
found_some view s now [] none e h (inl f) = absurd cc
found_some view s now [] none e h (inr f) = absurd (omega arith)
found_some view s now [] (some q) e h f = (q, refl)
found_some view s now (x ∷ xs) found e h f =
    found_some view s now xs
      (if is_pingable view s x now && more_pingable view x found then some x else found) e h
      (inl (keeps_found view x (is_pingable view s x now) found (pingable view s x now e (h x))))

some_pingable :
    (view : View) (s : IceController) (now : ℕ) (ps : List ℕ)
    → s.selected_connection ≡ none
    → ((p : ℕ) → has_credentials view p ≡ true)
    → 1 ≤ length ps
    → any (λ (p : ℕ). is_pingable view s p now) ps ≡ true
unfolding any
some_pingable view s now [] e h one = absurd (omega arith)
some_pingable view s now (x ∷ xs) e h one = rw (pingable view s x now e (h x)) refl

same_turn :
    (view : View) (s : IceController) (now : ℕ)
    → s.selected_connection ≡ none
    → ((p : ℕ) → has_credentials view p ≡ true)
    → 1 ≤ length s.unpinged_connections
    → new_turn view s now ≡ s
unfolding new_turn
same_turn view s now e h one =
    if_true (λ (t : IceController). t ≡ s)
      (any (λ (p : ℕ). is_pingable view s p now) s.unpinged_connections) s
      (record s {
        unpinged_connections = set_insert_all s.pinged_connections s.unpinged_connections;
        pinged_connections = [];
      })
      (some_pingable view s now s.unpinged_connections e h one) refl

-- The search finds an unpinged connection, and begins no new turn.
finds :
    (s : IceController) (t : Turn)
    → s.selected_connection ≡ none
    → Credited t
    → 1 ≤ length s.unpinged_connections
    → (q : ℕ) × (find_turn s t ≡ (s, some q)) × (1 ≤ count q s.unpinged_connections)
unfolding find_beside
finds s t e h one =
    let same = same_turn t.view s t.now e h one in
    let (q, f) = found_some t.view s t.now s.unpinged_connections none e h (inr one) in
    let listed : 1 ≤ count q s.unpinged_connections =
      elim (find_oldest-listed t.view s t.now s.unpinged_connections none q f) [
        | inl n ↦ absurd cc
        | inr l ↦ l
      ] in
    let in_turn =
      subst
        (λ (u : IceController).
          ◌≡◌ {A = IceController × Option ℕ}
            (u, find_oldest t.view u t.now u.unpinged_connections none) (s, some q))
        (sym same) (ap (λ (o : Option ℕ). (s, o)) f) in
    (
      q,
      subst (λ (o : Option ℕ). find_beside t.view s t.now o ≡ (s, some q)) (sym e) in_turn,
      listed,
    )

length-erase : (q : ℕ) (xs : List ℕ) → 1 ≤ count q xs → suc (length (erase q xs)) ≡ length xs
unfolding erase
length-erase q [] h = absurd (omega arith)
length-erase q (x ∷ xs) h = elim (Bool-cases (x == q)) [
  | inl e ↦ rw e refl
  | inr e ↦ let one = rw e at h in rw e (omega (arith, length-erase q xs (omega arith)))
]

length_of_count : (q : ℕ) (xs : List ℕ) → 1 ≤ count q xs → 1 ≤ length xs
length_of_count q [] h = absurd (omega arith)
length_of_count q (x ∷ xs) h = omega arith

marks_unpinged :
    (s : IceController) (q : ℕ)
    → IsPartition s
    → 1 ≤ count q s.unpinged_connections
    → mark_connection_pinged s (some q) ≡ record s {
      pinged_connections = set_insert q s.pinged_connections;
      unpinged_connections = erase q s.unpinged_connections;
    }
unfolding mark_connection_pinged
marks_unpinged s q h one = elim (Bool-cases (contains s.pinged_connections q)) [
  | inl e ↦
      let known = contains-count s.pinged_connections q in
      let both = h.split q in let once = h.once q in absurd (let k = rw e at known in omega arith)
  | inr e ↦ rw e refl
]

-- With nothing selected, the peer's credentials known and the connections divided between the sets,
-- every connection that waits in the unpinged set is pinged within as many turns as the set has
-- members, whatever the connections and the time are at each turn.
pub unpinged-Pinged :
    (s : IceController) (ts : List Turn) (p : ℕ)
    → IsPartition s
    → s.selected_connection ≡ none
    → All Credited ts
    → length s.unpinged_connections ≤ length ts
    → 1 ≤ count p s.unpinged_connections
    → Pinged p (pings s ts)
unfolding pings
unpinged-Pinged s [] p h e c enough waits =
    absurd (omega (arith, length_of_count p s.unpinged_connections waits))
unpinged-Pinged s (t ∷ ts) p h e c enough waits =
    let (q, f, listed) = finds s t e c.0 (length_of_count p s.unpinged_connections waits) in
    let u = mark_connection_pinged s (some q) in
    let marked = marks_unpinged s q h listed in
    let both = h.split q in
    let shorter : length u.unpinged_connections ≤ length ts =
      rw marked (omega (arith, length-erase q s.unpinged_connections listed)) in
    rw f (elim (Bool-cases (q == p)) [
      | inl same ↦
          subst (λ (x : ℕ). Pinged p (some x ∷ pings u ts)) (sym ((==_iff q p).0 same))
            (here (pings u ts))
      | inr other ↦
          let still : 1 ≤ count p u.unpinged_connections =
            let erased = count-erase q p s.unpinged_connections in
            rw marked (let kept = rw other at erased in omega arith) in
          later (some q) (pings u ts) (
            unpinged-Pinged u ts p (marked-IsPartition s q (omega arith) h)
              (subst (λ (x : IceController). x.selected_connection ≡ none) (sym marked) e) c.1
              shorter still)
    ])
