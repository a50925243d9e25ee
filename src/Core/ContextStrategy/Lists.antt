-- ===== src/Core/ContextStrategy/Lists.antt =====
-- _recordBacktrace and _eraseBacktrace of ContextStrategy change one list of waiting fibers each.
use ustevent.Prelude.{
  ℕ, ◌<◌, ◌≡◌, ◌∙◌, refl, sym, subst, arith, true, false, Bool-cases, inl, inr, ◌⊎◌, Option, none,
  some, List, [], ◌∷◌, ◌++◌, done, ◌==◌, update, set, Option-cases,
}
use ustevent.Core.ListNodeAllocator.Chains.{
  has, Below-has, last, has-append, has-last, Distinct-append, last-append,
}
use ustevent.Core.ContextStrategy.{Infos, ContextStrategy, append_waiting, erase_backtrace, unlink}
use ustevent.Core.ContextStrategy.Chains.{
  remove, has-remove, has-remove_ne, remove-Distinct, remove_absent, Doubly-prev, Doubly-next,
  append_waiting-Doubly, cut, cut-next, cut-prev, cut-backtrace, cut-Doubly, behind,
}
use ustevent.Core.ContextStrategy.Waiting.{Table, At, Outside, Tracked, Change, Tracked-change}
use ustevent.Core.ContextStrategy.Links.{
  last-remove_end, last-remove_middle, append_waiting-backtrace, apart_one, erase_backtrace-cut,
}

module _ {Q : Type 0} {m : Infos} {table : Table Q} {fresh : ℕ} {ws : ℕ → List ℕ}
    (tr : Tracked m table fresh ws) (k : ℕ) (s : ContextStrategy Q) (at : At table k s) where
  open tr use {kept, numbered, used, apart, idle, sized}

  -- The node behind one of the list is in the list.
  behind-outside :
      (d : ℕ) (o : Option ℕ) (x : ℕ)
      → has d (ws k) ≡ true
      → (m d).next ≡ o
      → has x (s.waiting_fibers_head ∷ ws k) ≡ false
      → behind o x ≡ false
  behind-outside d none x i e out = refl
  behind-outside d (some b) x i e out =
      let ks = kept k s at in
      let (j, _) =
        Doubly-next m d b s.waiting_fibers_head (ws k) ks.chain ks.distinct (ground arith) e in
      elim (Bool-cases (b == x)) [
        | inl y ↦
            let same : b ≡ x = ground arith in
            absurd (ground (arith, subst (λ z. has z (ws k) ≡ true) same j))
        | inr y ↦ y
      ]

  -- Taking out a node of the list.
  cut-Change :
      (d a : ℕ) (o : Option ℕ) (tail : ℕ) (q : Q)
      → has d (ws k) ≡ true
      → (m d).prev ≡ some a
      → (m d).next ≡ o
      → tail ≡ last s.waiting_fibers_head (remove d (ws k))
      → Change m
          (cut m d a o)
          s
          (record s { waiting_fibers_tail = tail; ready_queue = q })
          d
          (ws k)
          (remove d (ws k))
  cut-Change d a o tail q i e f t =
      let ks = kept k s at in
      let (a', at_a, in_a) = Doubly-prev m d s.waiting_fibers_head (ws k) ks.chain i in
      record {
        kept = record {
          chain = cut-Doubly m d a s.waiting_fibers_head o (ws k) ks.chain ks.distinct i e f;
          distinct = (
            has-remove s.waiting_fibers_head d (ws k) ks.distinct.0,
            remove-Distinct d (ws k) ks.distinct.1,
          );
          tail = t;
        };
        head = refl;
        id = refl;
        inside = λ x j. elim (Bool-cases (x == d)) [
          | inl y ↦ ground arith
          | inr y ↦ ground (arith, has-remove_ne x d (ws k) y)
        ];
        same = λ x out ne. (
          ground (arith, cut-prev m d a o x, behind-outside d o x i f out),
          elim (Bool-cases (a == x)) [
            | inl y ↦
                let a_x : a' ≡ x = ground arith in
                absurd (cc (out, subst (λ z. has z (s.waiting_fibers_head ∷ ws k) ≡ true) a_x in_a))
            | inr y ↦ ground (arith, cut-next m d a o x)
          ],
        );
        freed = λ x out y. elim (Bool-cases (x == d)) [
          | inl z ↦ (cut-prev m d a o x ∙ ground arith, cut-next m d a o x ∙ ground arith)
          | inr z ↦ absurd (ground (arith, has-remove_ne x d (ws k) z))
        ];
        sized = λ x. rw cut-backtrace (sized x);
      }

  -- A node that no list has is not taken out of one.
  absent-Change :
      (d : ℕ) (q : Q)
      → Outside table ws d
      → Change m m s (record s { ready_queue = q }) d (ws k) (remove d (ws k))
  absent-Change d q out =
      let ks = kept k s at in
      let stays : remove d (ws k) ≡ ws k = remove_absent d (ws k) (ground (arith, out k s at)) in
      record {
        kept = rw stays (record { chain = ks.chain; distinct = ks.distinct; tail = ks.tail });
        head = refl;
        id = refl;
        inside = rw stays λ x j. ground arith;
        same = λ x o ne. (refl, refl);
        freed = λ x o y.
            let o' = subst (λ z. has x (s.waiting_fibers_head ∷ z) ≡ false) stays o in
            let x_d : d ≡ x = ground arith in
            subst (λ z. ((m z).prev ≡ none) × ((m z).next ≡ none)) x_d (idle d out);
        sized = sized;
      }

  -- The fiber of `d` waits at the strategy `k`, or nowhere.
  abbrev pub Mine : ℕ → Type 0
  Mine d = (has d (ws k) ≡ true) ⊎ (Outside table ws d × (d < fresh))

  pub home-Mine :
      (d : ℕ)
      → Mine d
      → (j : ℕ) (r : ContextStrategy Q) → At table j r
      → (j == k) ≡ false
      → has d (r.waiting_fibers_head ∷ ws j) ≡ false
  home-Mine d (inl i) j r old ne = apart k j s r at old (ground arith) d (ground arith)
  home-Mine d (inr (out, low)) j r old ne = out j r old

  low-Mine : (d : ℕ) → Mine d → d < fresh
  low-Mine d (inl i) = Below-has fresh d (ws k) (used k s at).1 i
  low-Mine d (inr (out, low)) = low

  -- _eraseBacktrace ends, and takes the node out of the list.
  pub erase_backtrace-Tracked :
      (d : ℕ) (q : Q)
      → Mine d
      → (m' : Infos) × (tail : ℕ) × (erase_backtrace m s.waiting_fibers_tail d ≡ done (m', tail))
        × Tracked m'
            (set table k (some (record s { waiting_fibers_tail = tail; ready_queue = q })))
            fresh
            (update ws k (remove d (ws k)))
  unfolding erase_backtrace
  erase_backtrace-Tracked d q (inr (out, low)) =
      let (p, n) = idle d out in
      (
        m,
        s.waiting_fibers_tail,
        λ i. unlink m s.waiting_fibers_tail d (n i) (p i),
        Tracked-change tr at (absent-Change d q out) low (home-Mine d (inr (out, low))),
      )
  erase_backtrace-Tracked d q (inl i) =
      let ks = kept k s at in
      let (a, at_a, in_a) = Doubly-prev m d s.waiting_fibers_head (ws k) ks.chain i in
      elim (Option-cases ((m d).next)) [
        | inl e ↦ (
          cut m d a none,
          a,
          erase_backtrace-cut m s.waiting_fibers_tail d a none at_a e,
          Tracked-change tr at
              (cut-Change d a none a q i at_a e (
                sym (
                  last-remove_end m d a s.waiting_fibers_head (ws k) ks.chain ks.distinct i at_a
                    e)))
              (low-Mine d (inl i)) (home-Mine d (inl i)),
        )
        | inr (b, e) ↦ (
          cut m d a (some b),
          s.waiting_fibers_tail,
          erase_backtrace-cut m s.waiting_fibers_tail d a (some b) at_a e,
          Tracked-change tr at
              (cut-Change d a (some b) s.waiting_fibers_tail q i at_a e (
                ks.tail ∙ sym (last-remove_middle m d b s.waiting_fibers_head (ws k) ks.chain i e)))
              (low-Mine d (inl i)) (home-Mine d (inl i)),
        )
      ]

  -- A node that no list has goes to the end of this one.
  pub append-Change :
      (d : ℕ)
      → Outside table ws d
      → Change m
          (append_waiting m s.waiting_fibers_tail d).0
          s
          (record s { waiting_fibers_tail = d })
          d
          (ws k)
          (ws k ++ d ∷ [])
  unfolding append_waiting
  append-Change d out =
      let ks = kept k s at in
      let h = s.waiting_fibers_head in
      let d_out = out k s at in
      record {
        kept = record {
          chain =
              rw ks.tail
                (append_waiting-Doubly m d h (ws k) ks.chain ks.distinct d_out (idle d out).1);
          distinct =
              Distinct-append (h ∷ ws k) (d ∷ []) ks.distinct (refl, tt)
                (apart_one d (h ∷ ws k) d_out);
          tail = sym (last-append h d (ws k));
        };
        head = refl;
        id = refl;
        inside = λ x j. ground (arith, has-append x (ws k) (d ∷ []));
        same = λ x o ne. rw ks.tail (ground (arith, has-last h (ws k)));
        freed = λ x o y. absurd (ground (arith, has-append x (ws k) (d ∷ [])));
        sized = λ x. rw append_waiting-backtrace (sized x);
      }
