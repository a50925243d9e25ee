-- ===== src/Net/TcpAddress/Parsed.antt =====
-- The bytes of addresses that are parsed or constructed, and the arrays of their texts.
use ustevent.Prelude.{
  ℕ, ◌≡◌, ◌≤◌, refl, ap, Option, none, some, List, [], ◌∷◌, ◌++◌, Outcome, done, ◌>>=◌, length,
  take, drop, copy, arith, Option-cases, inl, inr, suc, zero, length-take, length-drop,
}
use ustevent.Net.IpAddress.{parse_v4_buffer, memcpy, parse_v4}
use ustevent.Net.TcpAddress.{
  Sockets, TcpIpV4Address, TcpIpV6Address, sin_addr, sin6_addr, parse_tcp_v4, construct_v4,
  string_v4, string_v6,
}

take_all : (n : ℕ) (xs : List ℕ) → length xs ≤ n → take n xs ≡ xs
take_all zero [] h = refl
take_all zero (x ∷ xs) h = absurd (omega arith)
take_all (suc n) [] h = refl
take_all (suc n) (x ∷ xs) h = ap (◌∷◌ x) (take_all n xs (omega arith))

-- The text of an address is never cut off: when `inet_ntop` writes at most 15 (IPv4) or 45 (IPv6) characters and
-- a port has at most five digits, the text is the address, a colon and the digits, the IPv6 address in brackets.
pub string_whole :
    (ntop4 ntop6 digits : List ℕ → List ℕ) (a : TcpIpV4Address) (b : TcpIpV6Address)
    → ((m : List ℕ) → length (ntop4 m) ≤ 15)
    → ((m : List ℕ) → length (ntop6 m) ≤ 45)
    → ((m : List ℕ) → length (digits m) ≤ 5)
    → (string_v4 ntop4 digits a
        ≡ ntop4 (sin_addr a.address_v4) ++ (58 ∷ digits (take 2 (drop 2 a.address_v4))))
      × (string_v6 ntop6 digits b
          ≡ (91 ∷ ntop6 (sin6_addr b.address_v6))
            ++ (93 ∷ 58 ∷ digits (take 2 (drop 2 b.address_v6))))
unfolding string_v4 string_v6
string_whole ntop4 ntop6 digits a b h4 h6 hd =
    let n4 = h4 (sin_addr a.address_v4) in
    let n6 = h6 (sin6_addr b.address_v6) in
    let d4 = hd (take 2 (drop 2 a.address_v4)) in
    let d6 = hd (take 2 (drop 2 b.address_v6)) in
    (
      ap (λ u. ntop4 (sin_addr a.address_v4) ++ u)
          (take_all _ (58 ∷ digits (take 2 (drop 2 a.address_v4))) (omega arith)),
      ap (λ u. (91 ∷ ntop6 (sin6_addr b.address_v6)) ++ u)
          (take_all _ (93 ∷ 58 ∷ digits (take 2 (drop 2 b.address_v6))) (omega arith)),
    )

-- The three fields do not overlap, so that their order does not matter.
write_order :
    (u v b m : List ℕ)
    → length u ≡ 2
    → length v ≡ 2
    → length b ≡ 4
    → length m ≡ 16
    → memcpy (copy 2 v (copy 0 u m)) 4 b 4 ≡ done (copy 2 v (copy 0 u (copy 4 b m)))
write_order (u0 ∷ u1 ∷ []) (v0 ∷ v1 ∷ []) (b0 ∷ b1 ∷ b2 ∷ b3 ∷ [])
      (x0 ∷ x1 ∷ x2 ∷ x3 ∷ x4 ∷ x5 ∷ x6 ∷ x7 ∷ x8 ∷ x9 ∷ x10 ∷ x11 ∷ x12 ∷ x13 ∷ x14 ∷ x15 ∷ []) hu
      hv hb hm =
    refl
write_order u v b m hu hv hb hm = absurd (omega arith)

copy_all : (b m : List ℕ) → length b ≡ length m → copy 0 b m ≡ b
copy_all [] [] h = refl
copy_all (x ∷ b) [] h = absurd (omega arith)
copy_all [] (y ∷ m) h = absurd (omega arith)
copy_all (x ∷ b) (y ∷ m) h = ap (◌∷◌ x) (copy_all b m (omega arith))

-- Parsing an IPv4 address with a port into sixteen bytes gives the bytes of the constructor from the parsed IP
-- address and the port, and nothing when the text is no IPv4 address, whatever the bytes were, provided that a
-- 16-bit number has two bytes and an address has four.
pub parse_tcp_v4_lem :
    (s : Sockets) (host fresh : List ℕ) (port : ℕ)
    → ((n : ℕ) → length (s.bytes n) ≡ 2)
    → ((t b : List ℕ) → s.pton_v4 t ≡ some b → length b ≡ 4)
    → length fresh ≡ 16
    → (elim (parse_v4 s.pton_v4 s.pton_v6 host) as (λ _. Outcome (Option TcpIpV4Address)) [
      | none ↦ done none
      | some ip ↦ construct_v4 s ip port fresh >>= λ a. done (some a)
    ])
      ≡ done (parse_tcp_v4 s host port fresh)
unfolding parse_tcp_v4 construct_v4 parse_v4 parse_v4_buffer
parse_tcp_v4_lem s host fresh port h2 h4 hf = elim (Option-cases (s.pton_v4 host)) [
  | inl e ↦ rw e refl
  | inr (b, e) ↦
      let four = h4 host b e in
      rw (
        e,
        copy_all b (sin_addr fresh)
            (omega (arith, length-take 4 (drop 4 fresh), length-drop 4 fresh)),
        write_order (s.bytes s.af_inet) (s.bytes (s.htons port)) b fresh (h2 _) (h2 _) four hf,
      )
]
