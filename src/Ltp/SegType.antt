-- ===== src/Ltp/SegType.antt =====
-- include/ltp_cla/ltp_segment.h, namespace SegType: the four-bit segment type codes.
use qpsk_b.Base.{ℕ, Bool, ◌&&◌, ◌||◌, leb, ◌==◌}

abbrev pub red_data : ℕ
red_data = 0

abbrev pub red_data_cp : ℕ
red_data_cp = 1

abbrev pub red_data_cp_eorp : ℕ
red_data_cp_eorp = 2

abbrev pub red_data_cp_eorp_eob : ℕ
red_data_cp_eorp_eob = 3

abbrev pub green_data : ℕ
green_data = 4

abbrev pub green_data_eob : ℕ
green_data_eob = 5

abbrev pub report_segment : ℕ
report_segment = 6

abbrev pub report_ack : ℕ
report_ack = 7

abbrev pub cancel_by_sender : ℕ
cancel_by_sender = 8

abbrev pub cancel_ack_to_sender : ℕ
cancel_ack_to_sender = 9

abbrev pub cancel_by_receiver : ℕ
cancel_by_receiver = 12

abbrev pub cancel_ack_to_receiver : ℕ
cancel_ack_to_receiver = 13

-- The cases of the `switch`: 0 to 9, 12 and 13.
abbrev pub is_valid : ℕ → Bool
is_valid t = leb t 9 || (t == 12 || t == 13)

abbrev pub is_data : ℕ → Bool
is_data t = leb t 5

abbrev pub is_red : ℕ → Bool
is_red t = leb t 3

abbrev pub is_green : ℕ → Bool
is_green t = leb 4 t && leb t 5

abbrev pub has_checkpoint : ℕ → Bool
has_checkpoint t = leb 1 t && leb t 3

abbrev pub has_eorp : ℕ → Bool
has_eorp t = t == 2 || t == 3

abbrev pub has_eob : ℕ → Bool
has_eob t = t == 3 || t == 5
