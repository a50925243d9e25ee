-- ===== src/Net/IpAddress.antt =====
-- ustevent/net/ip/IpAddress.h and .cpp: IP addresses as arrays of bytes. `::inet_pton` is a
-- parameter; the bytes of an object that its constructor leaves unset are an argument, `fresh`.
pub mod Mapped
use ustevent.Prelude.{
  ℕ, ◌+◌, ◌≡◌, Bool, true, false, ◌&&◌, Option, none, some, List, [], ◌∷◌, ◌++◌, Outcome, done,
  fault, ◌>>=◌, length, take, drop, copy, leb, ltb, not, if◌then◌else◌, ◌==◌, bytes_eq,
}

abbrev pub size_of_ipv4_address : ℕ
size_of_ipv4_address = 4

abbrev pub size_of_ipv6_address : ℕ
size_of_ipv6_address = 16

pub record IpV4Address : Type 0 where
  pub address_v4 : List ℕ

pub record IpV6Address : Type 0 where
  pub address_v6 : List ℕ

pub data IpAddress : Type 0 where
  v4 : IpV4Address → IpAddress
  v6 : IpV6Address → IpAddress

-- `memcpy(to + offset, from, n)` between arrays; beyond an array it is undefined behaviour.
abbrev pub memcpy : List ℕ → ℕ → List ℕ → ℕ → Outcome (List ℕ)
memcpy to offset from n =
    if leb (offset + n) (length to) && leb n (length from)
    then done (copy offset (take n from) to)
    else fault

-- The six numbers of 16 bits, the last one 0xFFFF, as bytes.
abbrev pub v4_mapped_prefix : List ℕ
v4_mapped_prefix = 0 ∷ 0 ∷ 0 ∷ 0 ∷ 0 ∷ 0 ∷ 0 ∷ 0 ∷ 0 ∷ 0 ∷ 0xff ∷ 0xff ∷ []

-- `IpV4Address::toV6` into a new object and into a buffer of the caller.
pub to_v6 : IpV4Address → List ℕ → Outcome IpV6Address
to_v6 a fresh = do
  x ← memcpy fresh 0 v4_mapped_prefix 12
  y ← memcpy x 12 a.address_v4 (length a.address_v4)
  done (record { address_v6 = y })

pub to_v6_buffer : IpV4Address → List ℕ → ℕ → Outcome (Bool × List ℕ)
to_v6_buffer a buffer address_size =
    if ltb address_size size_of_ipv6_address then done (false, buffer) else do
      x ← memcpy buffer 0 v4_mapped_prefix 12
      y ← memcpy x 12 a.address_v4 (length a.address_v4)
      done (true, y)

-- `memcmp(data(), s_v4mapped_prefix, sizeof(s_v4mapped_prefix)) == 0`.
abbrev pub is_mapped : IpV6Address → Bool
is_mapped a = bytes_eq (take 12 a.address_v6) v4_mapped_prefix

-- `IpV6Address::toV4`. The number of bytes copied is `size()`, that of the IPv6 address.
pub to_v4 : IpV6Address → List ℕ → Outcome (Option IpV4Address)
to_v4 a fresh = if not (is_mapped a) then done none else do
  x ← memcpy fresh 0 (drop 12 a.address_v6) (length a.address_v6)
  done (some (record { address_v4 = x }))

pub to_v4_buffer : IpV6Address → List ℕ → ℕ → Outcome (Bool × List ℕ)
to_v4_buffer a buffer address_size =
    if ltb address_size size_of_ipv4_address
    then done (false, buffer)
    else if not (is_mapped a)
    then done (false, buffer)
    else do x ← memcpy buffer 0 (drop 12 a.address_v6) (length a.address_v6); done (true, x)

-- The operators `==`.
pub eq_v4_v4 : IpV4Address → IpV4Address → Bool
eq_v4_v4 l r = bytes_eq l.address_v4 r.address_v4

pub eq_v4_v6 : IpV4Address → IpV6Address → Bool
eq_v4_v6 l r =
    is_mapped r && bytes_eq (take (length l.address_v4) (drop 12 r.address_v6)) l.address_v4

pub eq_v6_v6 : IpV6Address → IpV6Address → Bool
eq_v6_v6 l r = bytes_eq l.address_v6 r.address_v6

pub eq_v6_v4 : IpV6Address → IpV4Address → Bool
eq_v6_v4 l r =
    is_mapped l && bytes_eq (take (length r.address_v4) (drop 12 l.address_v6)) r.address_v4

-- The copy constructors and assignments, into an object with the bytes `fresh`.
pub assign_v4 : List ℕ → IpV4Address → Outcome IpV4Address
assign_v4 fresh rhs = do
  x ← memcpy fresh 0 rhs.address_v4 (length rhs.address_v4)
  done (record { address_v4 = x })

pub assign_v6 : List ℕ → IpV6Address → Outcome IpV6Address
assign_v6 fresh rhs = do
  x ← memcpy fresh 0 rhs.address_v6 (length rhs.address_v6)
  done (record { address_v6 = x })

-- `::inet_pton` for a family: the bytes of a text that is an address.
abbrev pub Pton : Type 0
Pton = List ℕ → Option (List ℕ)

module _ (pton_v4 pton_v6 : Pton) where
  unfoldable pub parse_v4 : List ℕ → Option IpV4Address
  parse_v4 host = elim (pton_v4 host) [ none ↦ none | some b ↦ some (record { address_v4 = b }) ]

  unfoldable pub parse_v6 : List ℕ → Option IpV6Address
  parse_v6 host = elim (pton_v6 host) [ none ↦ none | some b ↦ some (record { address_v6 = b }) ]

  unfoldable pub parse : List ℕ → Option IpAddress
  unfolding parse_v4 parse_v6
  parse host = elim (parse_v4 host) [
    | some a ↦ some (v4 a)
    | none ↦ elim (parse_v6 host) [ some a ↦ some (v6 a) | none ↦ none ]
  ]

  -- The same into a buffer of the caller: whether the text is an address, and the buffer.
  unfoldable pub parse_v4_buffer : List ℕ → List ℕ → ℕ → Bool × List ℕ
  parse_v4_buffer host buffer address_size =
      if ltb address_size size_of_ipv4_address
      then (false, buffer)
      else elim (pton_v4 host) [ none ↦ (false, buffer) | some b ↦ (true, copy 0 b buffer) ]

  unfoldable pub parse_v6_buffer : List ℕ → List ℕ → ℕ → Bool × List ℕ
  parse_v6_buffer host buffer address_size =
      if ltb address_size size_of_ipv6_address
      then (false, buffer)
      else elim (pton_v6 host) [ none ↦ (false, buffer) | some b ↦ (true, copy 0 b buffer) ]

  pub parse_buffer : List ℕ → List ℕ → ℕ → Bool × List ℕ
  unfolding parse_v4_buffer parse_v6_buffer
  parse_buffer host buffer address_size =
      let (found, out) = parse_v4_buffer host buffer address_size in
      if found then (true, out) else parse_v6_buffer host out address_size
