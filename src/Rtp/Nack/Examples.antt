-- ===== src/Rtp/Nack/Examples.antt =====
-- A requester that waits for one packet, and the properties at it.
use xrtc_server.Base.{
  count, List, ℕ, ◌*◌, ◌/◌, ◌+◌, ◌≡◌, refl, arith, true, false, [], ◌∷◌, none, ltb, ◌==◌, is_some,
  if◌then◌else◌,
}
use xrtc_server.Base.Int.{ℤ, pos, ◌-ℤ◌}
use xrtc_server.Base.Seq.{circle, circle-SeqLaws}
use xrtc_server.Rtp.Histogram
use xrtc_server.Rtp.Histogram.{Float}
use xrtc_server.Rtp.Histogram.Window.{create-Inv}
use xrtc_server.Rtp.Nack
use xrtc_server.Rtp.Nack.Histories.{Event, packet, tick, run, run-create-Inv}
use xrtc_server.Rtp.Nack.{
  NackRequester, find_nack, get_nack_batch, batch_loop, drop_older, put_nack, insert_nack, is_due,
  time_only, process_nacks, new_nack_info,
}
use xrtc_server.Rtp.Nack.Batch.{Handled, get_nack_batch-asks}
use xrtc_server.Rtp.Nack.Receive.{
  on_received_packet, add_packets_to_nack, fill_loop, wait_number_of_packets, retries_of,
}
use xrtc_server.Rtp.Nack.Requests.{Inv, on_received_packet-closes}
use xrtc_server.Rtp.Nack.Missing.{on_received_packet-records}

-- A stand-in for `float`: parts per thousand.
abbrev permille : Float
permille = record {
  Carrier = ℕ;
  zero_float = 0;
  add = λ a b. a + b;
  of_ratio = λ a b. a * 1000 / b;
  less = ltb;
}

-- The front is at 10, and 8 is missing; it was asked for three times.
abbrev waiting : NackRequester
waiting = record {
  initialized = true;
  newest_seq_num = 10;
  nack_list =
      record {
        seq_num = 8;
        send_at_seq_num = 8;
        created_time = pos 0;
        send_at_time = pos 200;
        retries = 3;
      }
      ∷ [];
  keyframe_list = [];
  rtt_ms = pos 100;
  send_nack_delay_ms = pos 0;
  reordering_histogram = Histogram.create 10 128;
}

waiting-Inv : Inv waiting
unfolding find_nack
waiting-Inv = record {
  sound = record { unique = (refl, tt); retries = (omega arith, tt); bounded = omega arith };
  newest = omega arith;
  histogram = create-Inv 10 128 (omega arith) (omega arith) (omega arith);
}

abbrev clock : ℕ → ℤ
clock seq = pos 300

-- Packet 13 shows that 11 and 12 are missing, and they are asked for at once.
gap_batch :
    (on_received_packet permille circle 500 waiting clock (pos 300) 13 false false).2
    ≡ (11 ∷ 12 ∷ [])
unfolding on_received_packet get_nack_batch circle find_nack batch_loop add_packets_to_nack
    drop_older fill_loop put_nack insert_nack is_due ◌-ℤ◌ wait_number_of_packets
    Histogram.num_values Histogram.create
gap_batch = refl

-- The timer also asks for packets that were not asked for yet, and for one that waits for 50 more.
never_asked :
    (get_nack_batch circle
      (record waiting { nack_list = new_nack_info 8 58 (pos 0) ∷ [] })
      time_only
      (pos 400)).1
    ≡ 8 ∷ []
unfolding get_nack_batch batch_loop is_due ◌-ℤ◌
never_asked = refl

get_nack_batch-asks_example :
    Handled circle waiting time_only
      (pos 400)
      (find_nack waiting.nack_list 8)
      (find_nack (get_nack_batch circle waiting time_only (pos 400)).0.nack_list 8)
      (count 8 (get_nack_batch circle waiting time_only (pos 400)).1)
get_nack_batch-asks_example =
    get_nack_batch-asks circle waiting time_only (pos 400) waiting-Inv.sound.unique 8

on_received_packet-closes_example :
    ((on_received_packet permille circle 500 waiting clock (pos 300) 8 false true).1
      ≡ retries_of (find_nack waiting.nack_list 8))
    × ((j : ℕ)
        → find_nack
            (on_received_packet permille circle 500 waiting clock
              (pos 300)
              8
              false
              true).0.nack_list
            j
          ≡ (if 8 == j then none else find_nack waiting.nack_list j))
unfolding circle
on_received_packet-closes_example =
    on_received_packet-closes permille circle 500 circle-SeqLaws waiting clock (pos 300) 8 false
      true waiting-Inv refl refl refl

on_received_packet-records_example :
    is_some (
      find_nack
        (on_received_packet permille circle 500 waiting clock (pos 300) 13 false false).0.nack_list
        12)
    ≡ true
unfolding circle
on_received_packet-records_example =
    on_received_packet-records permille circle 500 circle-SeqLaws waiting clock (pos 300) 13 12
      false false (omega arith) (omega arith) waiting-Inv refl refl refl (omega arith) (omega arith)

-- A first packet, one that leaves a gap, and a tick.
abbrev events : List Event
events =
    packet clock (pos 300) 10 true false
    ∷ packet clock (pos 310) 13 false false
    ∷ tick (pos 500)
    ∷ []

run-create-Inv_example : Inv (run permille circle 500 (Nack.create 128) events)
run-create-Inv_example =
    run-create-Inv permille circle 500 128 events circle-SeqLaws (omega arith) (omega arith)
      (omega arith, (omega arith, (tt, tt)))
