-- ===== src/Net/TcpAddress.antt =====
-- ustevent/net/tcp/TcpAddress.h and .cpp: TCP addresses as the bytes of `sockaddr_in` and
-- `sockaddr_in6`, laid out as on Linux. `::inet_pton`, `::inet_ntop`, `htons`, the bytes of a 16-bit
-- number in memory and its digits are parameters, since other libraries define them.

pub mod Parsed
use ustevent.Prelude.{
  ℕ, ◌+◌, ◌-◌, Bool, true, false, Option, none, some, List, [], ◌∷◌, ◌++◌, Outcome, ◌>>=◌, done,
  length, take, drop, copy, ltb, if◌then◌else◌,
}
use ustevent.Net.Protocal.{tcp_ipv4, tcp_ipv6}
use ustevent.Net.IpAddress.{
  IpV4Address, IpV6Address, Pton, parse_v4_buffer, parse_v6_buffer, memcpy,
}

abbrev pub size_of_tcpipv4_address : ℕ
size_of_tcpipv4_address = 16

abbrev pub size_of_tcpipv6_address : ℕ
size_of_tcpipv6_address = 28

pub record TcpIpV4Address : Type 0 where
  pub address_v4 : List ℕ

pub record TcpIpV6Address : Type 0 where
  pub address_v6 : List ℕ

pub data TcpAddress : Type 0 where
  v4 : TcpIpV4Address → TcpAddress
  v6 : TcpIpV6Address → TcpAddress

pub protocal : TcpAddress → ℕ
protocal (v4 a) = tcp_ipv4
protocal (v6 a) = tcp_ipv6

pub size : TcpAddress → ℕ
size (v4 a) = length a.address_v4
size (v6 a) = length a.address_v6

-- What the code takes from the system: the families, `htons` and the two bytes of a number.
pub record Sockets : Type 0 where
  pub af_inet : ℕ
  pub af_inet6 : ℕ
  pub htons : ℕ → ℕ
  pub bytes : ℕ → List ℕ
  pub pton_v4 : Pton
  pub pton_v6 : Pton

-- The fields of `sockaddr_in` and `sockaddr_in6`: family and port are the first four bytes of both;
-- the address is at 4 in the first one, at 8, after the flow label, in the second one.
abbrev pub put_name : Sockets → ℕ → ℕ → List ℕ → List ℕ
put_name s family port m = copy 2 (s.bytes (s.htons port)) (copy 0 (s.bytes family) m)

abbrev pub sin_addr : List ℕ → List ℕ
sin_addr m = take 4 (drop 4 m)

abbrev pub sin6_addr : List ℕ → List ℕ
sin6_addr m = take 16 (drop 8 m)

module _ (s : Sockets) where
  pub parse_tcp_v4 : List ℕ → ℕ → List ℕ → Option TcpIpV4Address
  parse_tcp_v4 host port fresh =
      let (found, addr) = parse_v4_buffer s.pton_v4 s.pton_v6 host (sin_addr fresh) 4 in
      if found
      then some (record { address_v4 = put_name s s.af_inet port (copy 4 addr fresh) })
      else none

  pub parse_tcp_v6 : List ℕ → ℕ → List ℕ → Option TcpIpV6Address
  parse_tcp_v6 host port fresh =
      let (found, addr) = parse_v6_buffer s.pton_v4 s.pton_v6 host (sin6_addr fresh) 16 in
      if found
      then some (record { address_v6 = put_name s s.af_inet6 port (copy 8 addr fresh) })
      else none

  -- `fresh` and `fresh6` are the bytes of the two objects before they are filled.
  pub parse_tcp : List ℕ → ℕ → List ℕ → List ℕ → Option TcpAddress
  parse_tcp host port fresh fresh6 = elim (parse_tcp_v4 host port fresh) [
    | some a ↦ some (v4 a)
    | none ↦ elim (parse_tcp_v6 host port fresh6) [ some a ↦ some (v6 a) | none ↦ none ]
  ]

  pub parse_tcp_v4_buffer : List ℕ → ℕ → List ℕ → ℕ → Bool × List ℕ
  parse_tcp_v4_buffer host port buffer address_size =
      if ltb address_size size_of_tcpipv4_address
      then (false, buffer)
      else let (found, addr) = parse_v4_buffer s.pton_v4 s.pton_v6 host (sin_addr buffer) 4 in
        if found then (true, put_name s s.af_inet port (copy 4 addr buffer)) else (false, buffer)

  pub parse_tcp_v6_buffer : List ℕ → ℕ → List ℕ → ℕ → Bool × List ℕ
  parse_tcp_v6_buffer host port buffer address_size =
      if ltb address_size size_of_tcpipv6_address
      then (false, buffer)
      else let (found, addr) = parse_v6_buffer s.pton_v4 s.pton_v6 host (sin6_addr buffer) 16 in
        if found then (true, put_name s s.af_inet6 port (copy 8 addr buffer)) else (false, buffer)

  pub parse_tcp_buffer : List ℕ → ℕ → List ℕ → ℕ → Bool × List ℕ
  parse_tcp_buffer host port buffer address_size =
      let (found, out) = parse_tcp_v4_buffer host port buffer address_size in
      if found then (true, out) else parse_tcp_v6_buffer host port out address_size

  -- The constructors from an IP address and a port, into an object with the bytes `fresh`.
  pub construct_v4 : IpV4Address → ℕ → List ℕ → Outcome TcpIpV4Address
  construct_v4 ip port fresh = do
    x ← memcpy (put_name s s.af_inet port fresh) 4 ip.address_v4 4
    done (record { address_v4 = x })

  pub construct_v6 : IpV6Address → ℕ → List ℕ → Outcome TcpIpV6Address
  construct_v6 ip port fresh = do
    x ← memcpy (put_name s s.af_inet6 port fresh) 8 ip.address_v6 16
    done (record { address_v6 = x })

-- The copy constructors and assignments.
pub copy_v4 : List ℕ → TcpIpV4Address → Outcome TcpIpV4Address
copy_v4 fresh rhs = do
  x ← memcpy fresh 0 rhs.address_v4 (length rhs.address_v4)
  done (record { address_v4 = x })

pub copy_v6 : List ℕ → TcpIpV6Address → Outcome TcpIpV6Address
copy_v6 fresh rhs = do
  x ← memcpy fresh 0 rhs.address_v6 (length rhs.address_v6)
  done (record { address_v6 = x })

-- `::snprintf(str + length, size - length, ...)` keeps what fits before the terminating zero.
abbrev pub snprintf : ℕ → List ℕ → List ℕ → List ℕ
snprintf size text more = text ++ take (size - length text - 1) more

-- The text of an address, from what `::inet_ntop` writes for its bytes and the digits of
-- `ntohs(port)`; 58, 91 and 93 are `:`, `[` and `]`. The arrays have 16 + 6 and 46 + 8 bytes.
module _ (ntop : List ℕ → List ℕ) (digits : List ℕ → List ℕ) where
  pub string_v4 : TcpIpV4Address → List ℕ
  string_v4 a =
      snprintf 22 (ntop (sin_addr a.address_v4)) (58 ∷ digits (take 2 (drop 2 a.address_v4)))

  pub string_v6 : TcpIpV6Address → List ℕ
  string_v6 a =
      snprintf 54 (91 ∷ ntop (sin6_addr a.address_v6))
        (93 ∷ 58 ∷ digits (take 2 (drop 2 a.address_v6)))
