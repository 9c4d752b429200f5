-- ===== src/Router/Off.antt =====
-- stub_sr/sr_protocol.h: the offsets of the header fields in a frame.
use uchi_networks.Common.{ℕ}

abbrev pub ether_dhost : ℕ
ether_dhost = 0

abbrev pub ether_shost : ℕ
ether_shost = 6

abbrev pub ether_type : ℕ
ether_type = 12

-- sizeof(struct sr_ethernet_hdr), where the next header begins
abbrev pub ip_header : ℕ
ip_header = 14

abbrev pub ip_len : ℕ
ip_len = 16

abbrev pub ip_ttl : ℕ
ip_ttl = 22

abbrev pub ip_p : ℕ
ip_p = 23

abbrev pub ip_sum : ℕ
ip_sum = 24

abbrev pub ip_src : ℕ
ip_src = 26

abbrev pub ip_dst : ℕ
ip_dst = 30

abbrev pub ar_op : ℕ
ar_op = 20

abbrev pub ar_sha : ℕ
ar_sha = 22

abbrev pub ar_sip : ℕ
ar_sip = 28

abbrev pub ar_tha : ℕ
ar_tha = 32

abbrev pub ar_tip : ℕ
ar_tip = 38
