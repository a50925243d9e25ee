-- ===== src/Net/Protocal.antt =====
-- ustevent/net/Protocal.h: the low byte is the network protocol, the next one the transport protocol.
use ustevent.Prelude.{ℕ, Bool, ◌%◌, ◌/◌, ◌==◌}

abbrev pub ipv4 : ℕ
ipv4 = 0x1

abbrev pub ipv6 : ℕ
ipv6 = 0x2

abbrev pub tcp_ipv4 : ℕ
tcp_ipv4 = 0x101

abbrev pub tcp_ipv6 : ℕ
tcp_ipv6 = 0x102

abbrev pub udp_ipv4 : ℕ
udp_ipv4 = 0x201

abbrev pub udp_ipv6 : ℕ
udp_ipv6 = 0x202

-- `(protocal & IPV4) != 0` and `(protocal & IPV6) != 0`.
abbrev pub has_ipv4 : ℕ → Bool
has_ipv4 protocal = protocal % 2 == 1

abbrev pub has_ipv6 : ℕ → Bool
has_ipv6 protocal = protocal / 2 % 2 == 1
