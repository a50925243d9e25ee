-- ===== src/Net/Error.antt =====
-- ustevent/net/Error.h: `struct Error`.
use ustevent.Prelude.{ℤ, negsuc}

abbrev pub closed : ℤ
closed = negsuc 0

abbrev pub remotely_closed : ℤ
remotely_closed = negsuc 1

abbrev pub timeout : ℤ
timeout = negsuc 2

abbrev pub interrupted : ℤ
interrupted = negsuc 3

abbrev pub invalid_argument : ℤ
invalid_argument = negsuc 4

abbrev pub invalid_network_protocal : ℤ
invalid_network_protocal = negsuc 5

abbrev pub invalid_transport_protocal : ℤ
invalid_transport_protocal = negsuc 6
