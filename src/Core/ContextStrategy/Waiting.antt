-- ===== src/Core/ContextStrategy/Waiting.antt =====
-- The lists of waiting fibers of all strategies of a context: each strategy's chain, and the debug
-- infos outside them.
use mathlib.Core.Option.{some-injective}
use ustevent.Prelude.{
  ℕ, ◌<◌, ◌≡◌, ◌∙◌, refl, sym, subst, arith, true, false, Bool-cases, inl, inr, ◌⊎◌, ◌||◌, Option,
  none, some, List, [], ◌∷◌, ◌==◌, if◌then◌else◌, update, length, get_elem?, set, get_elem?-set,
}
use ustevent.Core.FiberDebugInfo.{backtrace_size}
use ustevent.Core.ListNodeAllocator.Chains.{has, Distinct, last, Below, Below-has}
use ustevent.Core.ContextStrategy.{Infos, ContextStrategy}
use ustevent.Core.ContextStrategy.Chains.{Doubly, Doubly-frame}

Below-of_has : (n : ℕ) (xs : List ℕ) → ((a : ℕ) → has a xs ≡ true → a < n) → Below n xs
Below-of_has n [] h = tt
Below-of_has n (x ∷ xs) h = (h x (ground arith), Below-of_has n xs (λ a i. h a (ground arith)))

abbrev pub Table : Type 0 → Type 0
Table Q = List (Option (ContextStrategy Q))

module _ {Q : Type 0} where
  -- The strategy `s` keeps the list `xs`.
  pub record Kept (m : Infos) (s : ContextStrategy Q) (xs : List ℕ) : Type 0 where
    pub chain : Doubly m s.waiting_fibers_head xs
    pub distinct : Distinct (s.waiting_fibers_head ∷ xs)
    pub tail : s.waiting_fibers_tail ≡ last s.waiting_fibers_head xs

  abbrev pub At : Table Q → ℕ → ContextStrategy Q → Type 0
  At table k s = get_elem? table k ≡ some (some s)

  -- No strategy has the node.
  abbrev pub Outside : Table Q → (ℕ → List ℕ) → ℕ → Type 0
  Outside table ws a =
      (k : ℕ) (s : ContextStrategy Q) → At table k s → has a (s.waiting_fibers_head ∷ ws k) ≡ false

  -- The strategies keep the lists `ws`, which have no node in common, and a node outside has no
  -- links. Addresses from `fresh` on are not in use.
  pub record Tracked (m : Infos) (table : Table Q) (fresh : ℕ) (ws : ℕ → List ℕ) : Type 0 where
    pub kept : (k : ℕ) (s : ContextStrategy Q) → At table k s → Kept m s (ws k)
    pub numbered : (k : ℕ) (s : ContextStrategy Q) → At table k s → s.id ≡ k
    pub used :
        (k : ℕ) (s : ContextStrategy Q) → At table k s → Below fresh (s.waiting_fibers_head ∷ ws k)
    pub apart :
        (j k : ℕ) (r s : ContextStrategy Q)
        → At table j r
        → At table k s
        → (j == k) ≡ false
        → (a : ℕ) → has a (r.waiting_fibers_head ∷ ws j) ≡ true
        → has a (s.waiting_fibers_head ∷ ws k) ≡ false
    pub idle : (a : ℕ) → Outside table ws a → ((m a).prev ≡ none) × ((m a).next ≡ none)
    pub sized : (a : ℕ) → length ((m a).backtrace) ≡ backtrace_size

  -- One strategy's chain is changed at nodes of its own, and perhaps at `d`.
  pub record Change (m m' : Infos) (s s' : ContextStrategy Q) (d : ℕ) (xs xs' : List ℕ)
      : Type 0 where
    pub kept : Kept m' s' xs'
    pub head : s'.waiting_fibers_head ≡ s.waiting_fibers_head
    pub id : s'.id ≡ s.id
    pub inside : (a : ℕ) → has a xs' ≡ true → (has a xs || (a == d)) ≡ true
    pub same :
        (a : ℕ)
        → has a (s.waiting_fibers_head ∷ xs) ≡ false
        → (a == d) ≡ false
        → ((m' a).prev ≡ (m a).prev) × ((m' a).next ≡ (m a).next)
    pub freed :
        (a : ℕ)
        → has a (s.waiting_fibers_head ∷ xs') ≡ false
        → (has a xs || (a == d)) ≡ true
        → ((m' a).prev ≡ none) × ((m' a).next ≡ none)
    pub sized : (a : ℕ) → length ((m' a).backtrace) ≡ backtrace_size

  module _ {m m' : Infos} {table : Table Q} {fresh : ℕ} {ws : ℕ → List ℕ}
      (tr : Tracked m table fresh ws) {k : ℕ} {s s' : ContextStrategy Q} (at : At table k s) {d : ℕ}
      {xs' : List ℕ} (ch : Change m m' s s' d (ws k) xs') (low : d < fresh)
      (home : (j : ℕ) (r : ContextStrategy Q)
        → At table j r
        → (j == k) ≡ false
        → has d (r.waiting_fibers_head ∷ ws j) ≡ false) where
    abbrev pub changed : Table Q
    changed = set table k (some s')

    lookup : (j : ℕ) → get_elem? changed j ≡ (if k == j then some (some s') else get_elem? table j)
    lookup j = get_elem?-set table k j (some s') (some s) at

    -- An entry of the new table is the changed one or an old one.
    found :
        (j : ℕ) (r : ContextStrategy Q)
        → At changed j r
        → (((k == j) ≡ true) × (s' ≡ r)) ⊎ (((k == j) ≡ false) × At table j r)
    found j r e = elim (Bool-cases (k == j)) [
      | inl h ↦
          inl
            (h, some-injective s' r (some-injective (some s') (some r) (ground (arith, lookup j))))
      | inr h ↦ inr (h, ground (arith, lookup j))
    ]

    open tr use {kept, numbered, used, apart, idle}

    -- The nodes of another strategy are not touched.
    untouched :
        (j : ℕ) (r : ContextStrategy Q)
        → At table j r
        → (k == j) ≡ false
        → (a : ℕ) → has a (r.waiting_fibers_head ∷ ws j) ≡ true
        → (has a (s.waiting_fibers_head ∷ ws k) ≡ false) × ((a == d) ≡ false)
    untouched j r old h a i =
        let h' : (j == k) ≡ false = ground arith in
        (
          apart j k r s old at h' a i,
          elim (Bool-cases (a == d)) [
            | inl e ↦
                let same : a ≡ d = ground arith in
                absurd (
                  cc (
                    home j r old h',
                    subst (λ x. has x (r.waiting_fibers_head ∷ ws j) ≡ true) same i,
                  ))
            | inr e ↦ e
          ],
        )

    within :
        (a : ℕ)
        → has a (s'.waiting_fibers_head ∷ xs') ≡ true
        → (has a (s.waiting_fibers_head ∷ ws k) || (a == d)) ≡ true
    within a i = ground (arith, ch.inside a, ch.head)

    Kept-at : (j : ℕ) (r : ContextStrategy Q) → At changed j r → Kept m' r (update ws k xs' j)
    Kept-at j r e = elim (found j r e) [
      | inl (h, same) ↦ rw h (subst (λ x. Kept m' x xs') same ch.kept)
      | inr (h, old) ↦ rw h (record {
        chain =
            Doubly-frame m m' r.waiting_fibers_head (ws j)
              (λ a i. let (x, y) = untouched j r old h a i in (ch.same a x y).1)
              (λ a i. let (x, y) = untouched j r old h a (ground arith) in (ch.same a x y).0)
              (kept j r old).chain;
        distinct = (kept j r old).distinct;
        tail = (kept j r old).tail;
      })
    ]

    numbered_at : (j : ℕ) (r : ContextStrategy Q) → At changed j r → r.id ≡ j
    numbered_at j r e = elim (found j r e) [
      | inl (h, same) ↦
          let k_j : k ≡ j = ground arith in
          subst (λ x. x.id ≡ j) same (ch.id ∙ numbered k s at ∙ k_j)
      | inr (h, old) ↦ numbered j r old
    ]

    used_at :
        (j : ℕ) (r : ContextStrategy Q)
        → At changed j r
        → Below fresh (r.waiting_fibers_head ∷ update ws k xs' j)
    used_at j r e = elim (found j r e) [
      | inl (h, same) ↦ rw h (
          subst (λ x. Below fresh (x.waiting_fibers_head ∷ xs')) same
            (Below-of_has fresh (s'.waiting_fibers_head ∷ xs') λ a i. elim (Bool-cases (a == d)) [
              | inl y ↦ ground arith
              | inr y ↦
                  Below-has fresh a (s.waiting_fibers_head ∷ ws k) (used k s at)
                    (ground (arith, within a i))
            ]))
      | inr (h, old) ↦ rw h (used j r old)
    ]

    apart_changed :
        (j : ℕ) (r : ContextStrategy Q)
        → At table j r
        → (k == j) ≡ false
        → (a : ℕ) → has a (r.waiting_fibers_head ∷ ws j) ≡ true
        → has a (s'.waiting_fibers_head ∷ xs') ≡ false
    apart_changed j r old h a i =
        let (x, y) = untouched j r old h a i in
        elim (Bool-cases (has a (s'.waiting_fibers_head ∷ xs'))) [
          | inl z ↦ absurd (ground (arith, within a z))
          | inr z ↦ z
        ]

    apart_at :
        (i j : ℕ) (q r : ContextStrategy Q)
        → At changed i q
        → At changed j r
        → (i == j) ≡ false
        → (a : ℕ) → has a (q.waiting_fibers_head ∷ update ws k xs' i) ≡ true
        → has a (r.waiting_fibers_head ∷ update ws k xs' j) ≡ false
    apart_at i j q r e f ne a = elim (found i q e) [
      | inl (h, same) ↦ elim (found j r f) [
        | inl (h', same') ↦ absurd (ground arith)
        | inr (h', old') ↦
            rw (h, h')
              λ y. elim (Bool-cases (has a (r.waiting_fibers_head ∷ ws j))) [
                | inl z ↦ absurd (
                    cc (
                      apart_changed j r old' h' a z,
                      subst (λ x. has a (x.waiting_fibers_head ∷ xs') ≡ true) (sym same) y,
                    ))
                | inr z ↦ z
              ]
      ]
      | inr (h, old) ↦ elim (found j r f) [
        | inl (h', same') ↦
            rw (h, h')
              λ y.
                subst (λ x. has a (x.waiting_fibers_head ∷ xs') ≡ false) same'
                  (apart_changed i q old h a y)
        | inr (h', old') ↦ rw (h, h') λ y. apart i j q r old old' ne a y
      ]
    ]

    Outside-new :
        (a : ℕ) → Outside changed (update ws k xs') a → has a (s'.waiting_fibers_head ∷ xs') ≡ false
    Outside-new a o =
        let self : (k == k) ≡ true = ground arith in
        let there : At changed k s' = lookup k ∙ rw self refl in rw self at (o k s' there)

    Outside-old :
        (a : ℕ)
        → Outside changed (update ws k xs') a
        → (has a (ws k) || (a == d)) ≡ false
        → Outside table ws a
    Outside-old a o y j r old = elim (Bool-cases (k == j)) [
      | inl h ↦
          let k_j : k ≡ j = ground arith in
          let same : s ≡ r =
            some-injective s r
              (some-injective (some s) (some r) (sym (subst (λ x. At table x s) k_j at) ∙ old)) in
          subst (λ x. has a (x.waiting_fibers_head ∷ ws j) ≡ false) same
            (subst (λ x. has a (s.waiting_fibers_head ∷ ws x) ≡ false) k_j
              (ground (arith, Outside-new a o, ch.head)))
      | inr h ↦ rw h at (o j r (lookup j ∙ rw h old))
    ]

    idle_at :
        (a : ℕ) → Outside changed (update ws k xs') a → ((m' a).prev ≡ none) × ((m' a).next ≡ none)
    idle_at a o = elim (Bool-cases (has a (ws k) || (a == d))) [
      | inl y ↦ ch.freed a (ground (arith, Outside-new a o, ch.head)) y
      | inr y ↦
          let (p, n) = ch.same a (ground (arith, Outside-new a o, ch.head)) (ground arith) in
          let (p', n') = idle a (Outside-old a o y) in (p ∙ p', n ∙ n')
    ]

    pub Tracked-change : Tracked m' changed fresh (update ws k xs')
    Tracked-change = record {
      kept = Kept-at;
      numbered = numbered_at;
      used = used_at;
      apart = apart_at;
      idle = idle_at;
      sized = ch.sized;
    }
