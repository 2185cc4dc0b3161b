-- ===== src/Ice/Controller.antt =====
-- src/ice/ice_controller.h, src/ice/ice_controller.cpp: which connection is pinged, and which is selected.
-- A pointer to a connection is a number, its address; `view` gives the connection that stands there. A
-- std::set of pointers is the list of its members in the order of their addresses.
-- absl::c_stable_sort stands for std::stable_sort: an insertion sort that keeps the order of equals.
pub mod Sets
pub mod Partition
pub mod Comparison
pub mod Switching
pub mod Fairness
mod Examples
use xrtc_server.Base.{
  ℕ, ◌+◌, ◌-◌, Bool, true, false, not, ◌&&◌, ◌||◌, List, [], ◌∷◌, ◌++◌, Option, none, some, ltb,
  leb, ◌==◌, length, if◌then◌else◌,
}
use xrtc_server.Base.Int.{ℤ, pos, negsuc, ◌+ℤ◌, leb_ℤ}
use xrtc_server.Ice.Connection.{IceConnection, rank, writable, weak, stable, priority}

abbrev pub min_improvement : ℕ
min_improvement = 10

abbrev pub weak_ping_interval : ℕ
weak_ping_interval = 48

abbrev pub strong_ping_interval : ℕ
strong_ping_interval = 480

abbrev pub stabling_connection_ping_interval : ℕ
stabling_connection_ping_interval = 900

abbrev pub stable_connection_ping_interval : ℕ
stable_connection_ping_interval = 2500

abbrev pub min_pings_at_weak_ping_interval : ℕ
min_pings_at_weak_ping_interval = 3

-- What stands at an address.
abbrev pub View : Type 0
View = (address : ℕ) → IceConnection

unfoldable pub any : (ℕ → Bool) → List ℕ → Bool
any test [] = false
any test (x ∷ xs) = test x || any test xs

abbrev pub contains : List ℕ → ℕ → Bool
contains xs p = any (λ (x : ℕ). x == p) xs

unfoldable pub insert_ordered : ℕ → List ℕ → List ℕ
insert_ordered p [] = p ∷ []
insert_ordered p (x ∷ xs) = if ltb p x then p ∷ x ∷ xs else x ∷ insert_ordered p xs

-- std::set::insert, of one member and of a range.
unfoldable pub set_insert : ℕ → List ℕ → List ℕ
set_insert p xs = if contains xs p then xs else insert_ordered p xs

unfoldable pub set_insert_all : List ℕ → List ℕ → List ℕ
set_insert_all [] xs = xs
set_insert_all (p ∷ ps) xs = set_insert_all ps (set_insert p xs)

-- std::set::erase, and the loop that erases the first place of the vector.
unfoldable pub erase : ℕ → List ℕ → List ℕ
erase p [] = []
erase p (x ∷ xs) = if x == p then xs else x ∷ erase p xs

pub record IceController : Type 0 where
  pub selected_connection : Option ℕ
  pub connections : List ℕ
  pub unpinged_connections : List ℕ
  pub pinged_connections : List ℕ

abbrev pub create : IceController
create = record {
  selected_connection = none;
  connections = [];
  unpinged_connections = [];
  pinged_connections = [];
}

unfoldable pub add_connection : IceController → ℕ → IceController
add_connection s p = record s {
  connections = s.connections ++ (p ∷ []);
  unpinged_connections = set_insert p s.unpinged_connections;
}

unfoldable pub on_connection_destroyed : IceController → ℕ → IceController
on_connection_destroyed s p = record s {
  pinged_connections = erase p s.pinged_connections;
  unpinged_connections = erase p s.unpinged_connections;
  connections = erase p s.connections;
}

abbrev pub set_selected_connection : IceController → Option ℕ → IceController
set_selected_connection s p = record s { selected_connection = p }

unfoldable pub mark_connection_pinged : IceController → Option ℕ → IceController
mark_connection_pinged s none = s
mark_connection_pinged s (some p) = if contains s.pinged_connections p then s else record s {
  pinged_connections = set_insert p s.pinged_connections;
  unpinged_connections = erase p s.unpinged_connections;
}

module _ (view : View) where
  unfoldable pub is_weak : IceController → Bool
  is_weak s = elim s.selected_connection [ none ↦ true | some p ↦ weak (view p) ]

  unfoldable pub get_connection_ping_interval : IceController → ℕ → ℕ → ℕ
  get_connection_ping_interval s p now =
      if ltb (view p).num_pings_sent min_pings_at_weak_ping_interval
      then weak_ping_interval
      else if is_weak s || not (stable (view p) now)
      then stabling_connection_ping_interval
      else stable_connection_ping_interval

  unfoldable pub is_connection_past_ping_interval : IceController → ℕ → ℕ → Bool
  is_connection_past_ping_interval s p now =
      leb ((view p).last_ping_sent + get_connection_ping_interval s p now) now

  -- Neither the name nor the password of the peer is empty.
  abbrev pub has_credentials : ℕ → Bool
  has_credentials p =
      not (length (view p).remote_username == 0 || length (view p).remote_password == 0)

  unfoldable pub is_pingable : IceController → ℕ → ℕ → Bool
  is_pingable s p now = has_credentials p && (is_weak s || is_connection_past_ping_interval s p now)

  unfoldable pub has_pingable_connection : IceController → ℕ → Bool
  has_pingable_connection s now = any (λ (p : ℕ). is_pingable s p now) s.connections

  abbrev pub more_pingable : ℕ → Option ℕ → Bool
  more_pingable p none = true
  more_pingable p (some q) = ltb (view p).last_ping_sent (view q).last_ping_sent

  -- The loop that looks for the connection whose last ping is the oldest.
  unfoldable pub find_oldest : IceController → ℕ → List ℕ → Option ℕ → Option ℕ
  find_oldest s now [] found = found
  find_oldest s now (p ∷ ps) found =
      find_oldest s now ps (if is_pingable s p now && more_pingable p found then some p else found)

  -- When no unpinged connection can be pinged, a new turn begins.
  unfoldable pub new_turn : IceController → ℕ → IceController
  new_turn s now =
      if any (λ (p : ℕ). is_pingable s p now) s.unpinged_connections then s else record s {
        unpinged_connections = set_insert_all s.pinged_connections s.unpinged_connections;
        pinged_connections = [];
      }

  unfoldable pub selected_is_due : IceController → ℕ → ℕ → Bool
  selected_is_due s p now = writable (view p) && is_connection_past_ping_interval s p now

  abbrev pub find_in_turn : IceController → ℕ → IceController × Option ℕ
  find_in_turn s now = let t = new_turn s now in (t, find_oldest t now t.unpinged_connections none)

  -- A selected connection that is writable and due is found first.
  unfoldable pub find_beside : IceController → ℕ → Option ℕ → IceController × Option ℕ
  find_beside s now none = find_in_turn s now
  find_beside s now (some p) = if selected_is_due s p now then (s, some p) else find_in_turn s now

  abbrev pub find_next_pingable_connection : IceController → ℕ → IceController × Option ℕ
  find_next_pingable_connection s now = find_beside s now s.selected_connection

  unfoldable pub ping_interval : IceController → ℕ
  ping_interval s =
      if is_weak s
        || any (λ (p : ℕ). ltb (view p).num_pings_sent min_pings_at_weak_ping_interval)
            s.connections
      then weak_ping_interval
      else strong_ping_interval

  -- The connection to ping, if any, and the interval to the next time.
  unfoldable pub select_connection_to_ping : IceController → ℤ → ℕ → IceController × Option ℕ × ℕ
  select_connection_to_ping s last_ping_sent now =
      let found = find_next_pingable_connection s now in
      if leb_ℤ (last_ping_sent +ℤ pos (ping_interval s)) (pos now)
      then (found.0, found.1, ping_interval s)
      else (s, none, ping_interval s)

  unfoldable pub compare_connections : ℕ → ℕ → ℤ
  compare_connections a b =
      if writable (view a) && not (writable (view b))
      then pos 1
      else if not (writable (view a)) && writable (view b)
      then negsuc 0
      else if ltb (rank (view a).write_state) (rank (view b).write_state)
      then pos 1
      else if ltb (rank (view b).write_state) (rank (view a).write_state)
      then negsuc 0
      else if (view a).receiving && not (view b).receiving
      then pos 1
      else if not (view a).receiving && (view b).receiving
      then negsuc 0
      else if ltb (priority (view b)) (priority (view a))
      then pos 1
      else if ltb (priority (view a)) (priority (view b))
      then negsuc 0
      else pos 0

  -- The comparison that the sort is given.
  abbrev pub by_sign : ℤ → Bool → Bool
  by_sign (pos n) tie = if n == 0 then tie else true
  by_sign (negsuc n) tie = false

  unfoldable pub comes_before : ℕ → ℕ → Bool
  comes_before a b = by_sign (compare_connections a b) (ltb (view a).rtt (view b).rtt)

  -- std::stable_sort: an element goes before those that it does not come after.
  unfoldable pub sort_insert : ℕ → List ℕ → List ℕ
  sort_insert p [] = p ∷ []
  sort_insert p (x ∷ xs) = if comes_before x p then x ∷ sort_insert p xs else p ∷ x ∷ xs

  unfoldable pub stable_sort : List ℕ → List ℕ
  stable_sort [] = []
  stable_sort (x ∷ xs) = sort_insert x (stable_sort xs)

  unfoldable pub ready_to_send : ℕ → Bool
  ready_to_send p = writable (view p) || rank (view p).write_state == 1

  -- Whether the first of the sorted connections replaces the selected one.
  unfoldable pub replaces : Option ℕ → ℕ → Bool
  replaces none top = ready_to_send top
  replaces (some p) top =
      ready_to_send top && not (p == top) && leb ((view top).rtt + min_improvement) (view p).rtt

  abbrev pub switch_to : Option ℕ → List ℕ → Option ℕ
  switch_to selected [] = none
  switch_to selected (top ∷ others) = if replaces selected top then some top else none

  unfoldable pub sort_and_switch_connection : IceController → IceController × Option ℕ
  sort_and_switch_connection s =
      let sorted = stable_sort s.connections in
      (record s { connections = sorted }, switch_to s.selected_connection sorted)
