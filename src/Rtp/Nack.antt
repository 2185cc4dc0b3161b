-- ===== src/Rtp/Nack.antt =====
-- src/modules/video_coding/nack_requester.cpp: which lost packets are asked for again, and when.
-- The std::map ordered by webrtc's DescendingSeqNumComp is the list of its entries, oldest first;
-- `find`, `operator[]` and `lower_bound` walk it from the front.
pub mod Batch
pub mod Entries
pub mod Receive
pub mod Gaps
pub mod Missing
pub mod Histories
pub mod Requests
mod Examples
use xrtc_server.Base.{
  ℕ, zero, suc, ◌+◌, ◌%◌, Bool, true, false, not, ◌&&◌, ◌||◌, List, [], ◌∷◌, Option, none, some,
  ltb, leb, ◌==◌, length, is_some, if◌then◌else◌,
}
use xrtc_server.Base.Int.{ℤ, pos, negsuc, ◌-ℤ◌, ltb_ℤ, leb_ℤ}
use xrtc_server.Base.Seq.{SeqNum, next16, u16}
use xrtc_server.Rtp.Histogram
use xrtc_server.Rtp.Histogram.{Histogram, Float}

abbrev pub max_nack_retries : ℕ
max_nack_retries = 10

abbrev pub max_packet_age : ℕ
max_packet_age = 10000

abbrev pub max_nack_packets : ℕ
max_nack_packets = 1000

pub data NackFilterOptions : Type 0 where
  seq_num_only time_only seq_num_and_time : NackFilterOptions

-- Times are in milliseconds; `send_at_time` is -1 until the first request.
pub record NackInfo : Type 0 where
  pub seq_num : ℕ
  pub send_at_seq_num : ℕ
  pub created_time : ℤ
  pub send_at_time : ℤ
  pub retries : ℕ

abbrev pub new_nack_info : ℕ → ℕ → ℤ → NackInfo
new_nack_info seq at now = record {
  seq_num = seq;
  send_at_seq_num = at;
  created_time = now;
  send_at_time = negsuc 0;
  retries = 0;
}

pub record NackRequester : Type 0 where
  pub initialized : Bool
  pub newest_seq_num : ℕ
  pub nack_list : List NackInfo
  pub keyframe_list : List ℕ
  pub rtt_ms : ℤ
  pub send_nack_delay_ms : ℤ
  pub reordering_histogram : Histogram

unfoldable pub create : ℕ → NackRequester
create capacity = record {
  initialized = false;
  newest_seq_num = 0;
  nack_list = [];
  keyframe_list = [];
  rtt_ms = pos 100;
  send_nack_delay_ms = pos 0;
  reordering_histogram = Histogram.create 10 capacity;
}

unfoldable pub update_rtt : NackRequester → ℤ → NackRequester
update_rtt r rtt = record r { rtt_ms = rtt }

unfoldable pub find_nack : List NackInfo → ℕ → Option NackInfo
find_nack [] seq = none
find_nack (x ∷ xs) seq = if x.seq_num == seq then some x else find_nack xs seq

unfoldable pub erase_nack : List NackInfo → ℕ → List NackInfo
erase_nack [] seq = []
erase_nack (x ∷ xs) seq = if x.seq_num == seq then xs else x ∷ erase_nack xs seq

-- `nack_list_[seq] = info`: an entry of that key is replaced, else one is put in order.
unfoldable pub replace_nack : List NackInfo → NackInfo → List NackInfo
replace_nack [] info = []
replace_nack (x ∷ xs) info =
    if x.seq_num == info.seq_num then info ∷ xs else x ∷ replace_nack xs info

unfoldable pub insert_nack : SeqNum → List NackInfo → NackInfo → List NackInfo
insert_nack c [] info = info ∷ []
insert_nack c (x ∷ xs) info =
    if c.ahead_of info.seq_num x.seq_num then x ∷ insert_nack c xs info else info ∷ x ∷ xs

unfoldable pub put_nack : SeqNum → List NackInfo → NackInfo → List NackInfo
put_nack c xs info =
    if is_some (find_nack xs info.seq_num) then replace_nack xs info else insert_nack c xs info

-- `erase(begin(), lower_bound(seq))`: the entries before `seq` go.
unfoldable pub drop_older : SeqNum → ℕ → List NackInfo → List NackInfo
drop_older c seq [] = []
drop_older c seq (x ∷ xs) = if c.ahead_of seq x.seq_num then drop_older c seq xs else x ∷ xs

unfoldable pub drop_older_keys : SeqNum → ℕ → List ℕ → List ℕ
drop_older_keys c seq [] = []
drop_older_keys c seq (x ∷ xs) = if c.ahead_of seq x then drop_older_keys c seq xs else x ∷ xs

unfoldable pub insert_key : SeqNum → List ℕ → ℕ → List ℕ
insert_key c [] seq = seq ∷ []
insert_key c (x ∷ xs) seq =
    if x == seq then x ∷ xs else if c.ahead_of seq x then x ∷ insert_key c xs seq else seq ∷ x ∷ xs

abbrev pub is_minus_one : ℤ → Bool
is_minus_one (negsuc zero) = true
is_minus_one (negsuc (suc n)) = false
is_minus_one (pos n) = false

abbrev pub considers_seq_num : NackFilterOptions → Bool
considers_seq_num seq_num_only = true
considers_seq_num time_only = false
considers_seq_num seq_num_and_time = true

abbrev pub considers_timestamp : NackFilterOptions → Bool
considers_timestamp seq_num_only = false
considers_timestamp time_only = true
considers_timestamp seq_num_and_time = true

-- The condition under which GetNackBatch asks for an entry's packet.
unfoldable pub is_due : SeqNum → NackRequester → NackFilterOptions → ℤ → NackInfo → Bool
is_due c r option now x =
    leb_ℤ r.send_nack_delay_ms (now -ℤ x.created_time)
    && ((considers_seq_num option
          && (is_minus_one x.send_at_time && c.ahead_or_at r.newest_seq_num x.send_at_seq_num))
        || (considers_timestamp option && ltb_ℤ r.rtt_ms (now -ℤ x.send_at_time)))

abbrev pub asked : ℤ → NackInfo → NackInfo
asked now x = record x { retries = x.retries + 1; send_at_time = now }

-- The loop of GetNackBatch: the entries that stay, and the numbers to ask for.
unfoldable pub batch_loop :
    SeqNum → NackRequester → NackFilterOptions → ℤ → List NackInfo → List NackInfo × List ℕ
batch_loop c r option now [] = ([], [])
batch_loop c r option now (x ∷ xs) =
    let (rest, batch) = batch_loop c r option now xs in
    if is_due c r option now x
    then (
      if leb max_nack_retries (x.retries + 1) then rest else asked now x ∷ rest,
      x.seq_num ∷ batch,
    )
    else (x ∷ rest, batch)

unfoldable pub get_nack_batch :
    SeqNum → NackRequester → NackFilterOptions → ℤ → NackRequester × List ℕ
get_nack_batch c r option now =
    let (rest, batch) = batch_loop c r option now r.nack_list in
    (record r { nack_list = rest }, batch)

-- `SignalNackSend` is raised with the batch, unless it is empty.
unfoldable pub process_nacks : SeqNum → NackRequester → ℤ → NackRequester × List ℕ
process_nacks c r now = get_nack_batch c r time_only now
