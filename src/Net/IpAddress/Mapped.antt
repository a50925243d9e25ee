-- ===== src/Net/IpAddress/Mapped.antt =====
-- IPv4-mapped addresses, their conversions and comparison, and the two ways of parsing.
use ustevent.Prelude.{
  ℕ, ◌≡◌, ◌≤◌, ◌↔◌, ◌∙◌, ◌&&◌, subst, refl, sym, ap, Bool, true, false, none, some, List, [], ◌∷◌,
  ◌++◌, Outcome, done, fault, length, copy, arith, bytes_eq→eq, bytes_eq_self,
}
use ustevent.Net.IpAddress.{
  IpV4Address, IpV6Address, v4, v6, v4_mapped_prefix, to_v6, to_v4, to_v4_buffer, eq_v4_v6, Pton,
  parse, parse_buffer, parse_v4_buffer, parse_v6_buffer, parse_v6,
}

-- The sixteen bytes of the mapped address of four.
abbrev pub mapped : ℕ → ℕ → ℕ → ℕ → List ℕ
mapped a b c d = v4_mapped_prefix ++ (a ∷ b ∷ c ∷ d ∷ [])

abbrev pub four : ℕ → ℕ → ℕ → ℕ → IpV4Address
four a b c d = record { address_v4 = a ∷ b ∷ c ∷ d ∷ [] }

-- `toV6` fills its sixteen bytes whatever they were.
to_v6_lem :
    (a b c d : ℕ) (fresh : List ℕ)
    → length fresh ≡ 16
    → to_v6 (four a b c d) fresh ≡ done (record { address_v6 = mapped a b c d })
unfolding to_v6
to_v6_lem a b c d
      (x0 ∷ x1 ∷ x2 ∷ x3 ∷ x4 ∷ x5 ∷ x6 ∷ x7 ∷ x8 ∷ x9 ∷ x10 ∷ x11 ∷ x12 ∷ x13 ∷ x14 ∷ x15 ∷ []) h =
    refl
to_v6_lem a b c d _ h = absurd (omega arith)

and_split : (a b : Bool) → a && b ≡ true → (a ≡ true) × (b ≡ true)
and_split true b h = (refl, h)
and_split false b h = cc

done-bytes :
    (x y : List ℕ)
    → ◌≡◌ {A = Outcome IpV6Address}
        (done (record { address_v6 = x }))
        (done (record { address_v6 = y }))
    → x ≡ y
done-bytes x y h = ap (λ r. elim r [ done i ↦ IpV6Address.address_v6 i | _ ↦ [] ]) h

-- Comparing an IPv4 address with an IPv6 address of sixteen bytes is comparing its mapped address with it.
pub eq_v4_v6_lem :
    (a b c d : ℕ) (fresh x : List ℕ)
    → length fresh ≡ 16
    → length x ≡ 16
    → eq_v4_v6 (four a b c d) (record { address_v6 = x }) ≡ true
      ↔ to_v6 (four a b c d) fresh ≡ done (record { address_v6 = x })
unfolding eq_v4_v6
eq_v4_v6_lem a b c d fresh
      (x0 ∷ x1 ∷ x2 ∷ x3 ∷ x4 ∷ x5 ∷ x6 ∷ x7 ∷ x8 ∷ x9 ∷ x10 ∷ x11 ∷ x12 ∷ x13 ∷ x14 ∷ x15 ∷ []) hf
      hx =
    (
      (λ h.
          let p =
            bytes_eq→eq (x0 ∷ x1 ∷ x2 ∷ x3 ∷ x4 ∷ x5 ∷ x6 ∷ x7 ∷ x8 ∷ x9 ∷ x10 ∷ x11 ∷ [])
              v4_mapped_prefix (and_split _ _ h).0 in
          let q =
            bytes_eq→eq (x12 ∷ x13 ∷ x14 ∷ x15 ∷ []) (a ∷ b ∷ c ∷ d ∷ []) (and_split _ _ h).1 in
          to_v6_lem a b c d fresh hf
          ∙ ap (λ y. done (record { address_v6 = y }))
              (sym (
                ap (λ u. u ++ (x12 ∷ x13 ∷ x14 ∷ x15 ∷ [])) p
                ∙ ap (λ u. v4_mapped_prefix ++ u) q))),
      λ h.
          subst (λ y. eq_v4_v6 (four a b c d) (record { address_v6 = y }) ≡ true)
            (done-bytes _ _ (sym (to_v6_lem a b c d fresh hf) ∙ h))
            (bytes_eq_self (a ∷ b ∷ c ∷ d ∷ [])),
    )
eq_v4_v6_lem a b c d fresh _ hf hx = absurd (omega arith)

-- Converting the mapped address of an IPv4 address back does not give that address: the copy
-- runs beyond the arrays, whatever the object or the buffer it goes to held before.
pub to_v4-to_v6 :
    (a b c d : ℕ) (fresh buffer : List ℕ) (address_size : ℕ)
    → 4 ≤ address_size
    → (to_v4 (record { address_v6 = mapped a b c d }) fresh ≡ fault)
      × (to_v4_buffer (record { address_v6 = mapped a b c d }) buffer address_size ≡ fault)
unfolding to_v4 to_v4_buffer
to_v4-to_v6 a b c d fresh buffer address_size h = (ground arith, ground arith)

-- Parsing into a buffer of at least sixteen bytes finds an address exactly when parsing into an object does,
-- and puts the bytes of that object at the start of the buffer; without an address the buffer stays as it was.
pub parse_buffer_lem :
    (pton_v4 pton_v6 : Pton) (host buffer : List ℕ) (address_size : ℕ)
    → 16 ≤ address_size
    → parse_buffer pton_v4 pton_v6 host buffer address_size ≡ elim (parse pton_v4 pton_v6 host) [
      | none ↦ (false, buffer)
      | some (v4 a) ↦ (true, copy 0 a.address_v4 buffer)
      | some (v6 a) ↦ (true, copy 0 a.address_v6 buffer)
    ]
unfolding parse_buffer parse parse_v4_buffer parse_v6_buffer parse_v6
parse_buffer_lem pton_v4 pton_v6 host buffer address_size h = ground arith
