-- ===== src/Stream/Manager/State.antt =====
-- The registries of RtcStreamManager and the streams that they point to, on an explicit heap:
-- `new` takes the address `next`, `delete` empties an address. An unordered_map whose entries are
-- only looked up is a function; the players of one stream, which are iterated, are a list of pairs.
use xrtc_server.Base.{
  ℕ, Bool, true, false, List, [], ◌∷◌, Option, none, some, ◌==◌, if◌then◌else◌, is_some,
}
use Prim.Native.String.{String}
use text.Mathlib.Text.{◌==◌ as str_eq}
use xrtc_server.Stream.Packet.{MediaType}
use xrtc_server.Stream.Push.{PushStream}

pub data RtcStreamType : Type 0 where
  push pull : RtcStreamType

-- src/pc/stream_params.h: the SSRCs of one track.
pub record SsrcGroup : Type 0 where
  pub semantics : String
  pub ssrcs : List ℕ

pub record StreamParams : Type 0 where
  pub id : String
  pub ssrcs : List ℕ
  pub ssrc_groups : List SsrcGroup
  pub cname : String
  pub stream_id : String

pub has_ssrc : List ℕ → ℕ → Bool
has_ssrc [] ssrc = false
has_ssrc (item ∷ items) ssrc = if item == ssrc then true else has_ssrc items ssrc

pub first_ssrc : StreamParams → ℕ
first_ssrc p = elim p.ssrcs [ [] ↦ 0 | ssrc ∷ _ ↦ ssrc ]

-- `remote` is what the answer's description holds for a medium, `source` what a player was given
-- of the publisher's tracks, `sender` the packet cache of a publisher.
pub record RtcStream : Type 0 where
  pub stream_type : RtcStreamType
  pub uid : ℕ
  pub stream_name : String
  pub transparent : Bool
  pub remote : MediaType → Option (List StreamParams)
  pub source : MediaType → List StreamParams
  pub sender : PushStream

abbrev pub Ptr : Type 0
Ptr = ℕ

abbrev pub Heap : Type 0
Heap = Ptr → Option RtcStream

-- uid -> PullStream*
abbrev pub UserStreamMap : Type 0
UserStreamMap = List (ℕ × Ptr)

pub record Manager : Type 0 where
  pub push_streams : String → Option Ptr
  pub pull_streams : String → Option Ptr
  pub multi_pull_streams : String → Option UserStreamMap
  pub heap : Heap
  pub next : Ptr

abbrev pub update {ℓ} : {V : Type ℓ} → (String → Option V) → String → Option V → String → Option V
update m k v j = if str_eq k j then v else m j

abbrev pub store : Heap → Ptr → Option RtcStream → Heap
store h p v q = if p == q then v else h q

-- The inner map: find, erase, and insert, which keeps an entry that is there.
unfoldable pub find_user : UserStreamMap → ℕ → Option Ptr
find_user [] uid = none
find_user ((u, p) ∷ us) uid = if u == uid then some p else find_user us uid

unfoldable pub erase_user : UserStreamMap → ℕ → UserStreamMap
erase_user [] uid = []
erase_user ((u, p) ∷ us) uid = if u == uid then us else (u, p) ∷ erase_user us uid

unfoldable pub insert_user : UserStreamMap → ℕ → Ptr → UserStreamMap
insert_user us uid p = if is_some (find_user us uid) then us else (uid, p) ∷ us

-- `umap->empty()` after an erase: the outer slot goes with its last player.
abbrev pub non_empty : UserStreamMap → Option UserStreamMap
non_empty [] = none
non_empty (u ∷ us) = some (u ∷ us)

unfoldable pub find_push_stream : Manager → String → Option Ptr
find_push_stream m name = m.push_streams name

unfoldable pub find_pull_stream : Manager → String → Option Ptr
find_pull_stream m name = m.pull_streams name

unfoldable pub find_pull_stream_m : Manager → ℕ → String → Option Ptr
find_pull_stream_m m uid name = elim (m.multi_pull_streams name) [
  | none ↦ none
  | some us ↦ find_user us uid
]

-- `stream && uid == stream->get_uid()`; the pointer of an entry is read on the heap.
abbrev pub owned_by : Heap → Option Ptr → ℕ → Option Ptr
owned_by h none uid = none
owned_by h (some p) uid = elim (h p) [
  | none ↦ none
  | some s ↦ if uid == s.uid then some p else none
]

abbrev pub delete_push : Manager → String → Option Ptr → Manager
delete_push m name none = m
delete_push m name (some p) = record m {
  push_streams = update m.push_streams name none;
  heap = store m.heap p none;
}

abbrev pub delete_pull : Manager → String → Option Ptr → Manager
delete_pull m name none = m
delete_pull m name (some p) = record m {
  pull_streams = update m.pull_streams name none;
  heap = store m.heap p none;
}

unfoldable pub remove_push_stream : Manager → ℕ → String → Manager
remove_push_stream m uid name = delete_push m name (owned_by m.heap (find_push_stream m name) uid)

unfoldable pub remove_pull_stream : Manager → ℕ → String → Manager
remove_pull_stream m uid name = delete_pull m name (owned_by m.heap (find_pull_stream m name) uid)

abbrev pub delete_user : Manager → ℕ → String → UserStreamMap → Option Ptr → Manager
delete_user m uid name us none = record m {
  multi_pull_streams = update m.multi_pull_streams name (non_empty us);
}
delete_user m uid name us (some p) = record m {
  multi_pull_streams = update m.multi_pull_streams name (non_empty (erase_user us uid));
  heap = store m.heap p none;
}

unfoldable pub remove_pull_stream_m : Manager → ℕ → String → Manager
remove_pull_stream_m m uid name = elim (m.multi_pull_streams name) [
  | none ↦ m
  | some us ↦ delete_user m uid name us (find_user us uid)
]

abbrev pub users : Option UserStreamMap → UserStreamMap
users none = []
users (some us) = us

unfoldable pub add_pull_stream_m : Manager → Ptr → RtcStream → Manager
add_pull_stream_m m p s = record m {
  multi_pull_streams =
      update m.multi_pull_streams s.stream_name
        (some (insert_user (users (m.multi_pull_streams s.stream_name)) s.uid p));
}
