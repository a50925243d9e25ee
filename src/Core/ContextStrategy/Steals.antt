-- ===== src/Core/ContextStrategy/Steals.antt =====
-- The loop in which pick_next of ContextStrategy steals from the other strategies.
use ustevent.Prelude.{
  ℕ, zero, suc, ◌<◌, ◌≤◌, ◌+◌, ◌≡◌, ◌∙◌, refl, ap, arith, true, false, Bool-cases, inl, inr, Option,
  none, some, List, [], ◌∷◌, Outcome, done, ◌==◌, if◌then◌else◌, length, set, length-set, All, ltb,
}
use ustevent.Core.ContextStrategy.{
  Strategies, ReadyQueue, Kinds, draw, steal_at, steal_from, steal_loop,
}
use ustevent.Core.ContextStrategy.Ready.{hit, QueueLaws, ready, ready-set, Full, Full-set}

-- The draws that name another strategy than `id`.
abbrev pub others : ℕ → List ℕ → ℕ
others id [] = 0
others id (n ∷ rest) = if n == id then others id rest else suc (others id rest)

draw-some :
    (id i r bound : ℕ) (draws : List ℕ)
    → suc r ≤ others id draws
    → All (λ n. n < bound) draws
    → (n : ℕ) × (j : ℕ) × (rest : List ℕ) × (draw id i draws ≡ some (n, j, rest))
      × (i < j)
      × (n < bound)
      × (r ≤ others id rest)
      × All (λ n. n < bound) rest
      × ((n == id) ≡ false)
unfolding draw
draw-some id i r bound [] h b = absurd (omega arith)
draw-some id i r bound (n ∷ draws) h b = elim (Bool-cases (n == id)) [
  | inl e ↦
      let (m, j, rest, run, up, low, more, b', ne) =
        draw-some id (suc i) r bound draws (rw e at h) b.1 in
      (m, j, rest, rw e run, omega arith, low, more, b', ne)
  | inr e ↦ (n, suc i, draws, rw e refl, omega arith, b.0, omega (arith, rw e at h), b.1, e)
]

module _ {rq : ReadyQueue} {kinds : Kinds} (laws : QueueLaws rq kinds) where
  -- The victim is taken out of one queue, and nothing else is moved.
  pub record Taken (w : Strategies rq.Queue) (v : Option ℕ) (t : Strategies rq.Queue) : Type 0 where
    pub kept : (c : ℕ) → ready laws w.strategies c ≡ ready laws t.strategies c + hit v c
    pub full : Full t.strategies
    pub size : length t.strategies ≡ length w.strategies
    pub free : (c : ℕ) → v ≡ some c → kinds.is_pinned c ≡ false
    pub attached : t.attached ≡ w.attached
    pub debug : t.debug_on ≡ w.debug_on

  pub Taken-trans :
      {w t t' : Strategies rq.Queue} {v : Option ℕ} → Taken w none t → Taken t v t' → Taken w v t'
  Taken-trans a b = record {
    kept = λ c. omega (arith, a.kept c, b.kept c);
    full = b.full;
    size = b.size ∙ a.size;
    free = b.free;
    attached = b.attached ∙ a.attached;
    debug = b.debug ∙ a.debug;
  }

  steal_from-Taken :
      (w : Strategies rq.Queue) (n : ℕ)
      → Full w.strategies
      → n < length w.strategies
      → (v : Option ℕ) × (t : Strategies rq.Queue) × (steal_from rq kinds w n ≡ done (v, t))
        × Taken w v t
  unfolding steal_from
  steal_from-Taken w n full low =
      let (s, at) = full n low in
      let (v, q) = rq.steal s.ready_queue in
      let s' = record s { ready_queue = q } in
      (
        v,
        record w { strategies = set w.strategies n (some s') },
        ap (steal_at rq kinds w n) at,
        record {
          kept = λ c. omega (
            arith,
            ready-set laws w.strategies n (some s) (some s') c at,
            laws.steal_law s.ready_queue c,
          );
          full = Full-set w.strategies n s s' at full;
          size = length-set w.strategies n (some s');
          free = λ c e. laws.steal_free s.ready_queue c e;
          attached = refl;
          debug = refl;
        },
      )

  abbrev pub Steals : Strategies rq.Queue → Outcome (Option ℕ × Strategies rq.Queue) → Type 0
  Steals w o = (v : Option ℕ) × (t : Strategies rq.Queue) × (o ≡ done (v, t)) × Taken w v t

  steal_loop-next :
      (fuel id i bound : ℕ) (draws : List ℕ) (w : Strategies rq.Queue) (n j : ℕ) (rest : List ℕ)
      → draw id i draws ≡ some (n, j, rest)
      → (t : Strategies rq.Queue) → steal_from rq kinds w n ≡ done (none, t)
      → ltb j bound ≡ true
      → steal_loop rq kinds (suc fuel) bound id i draws w
        ≡ steal_loop rq kinds fuel bound id j rest t
  unfolding steal_loop
  steal_loop-next fuel id i bound draws w n j rest drawn t took more =
      rw (drawn, steal_loop) (rw took (rw more refl))

  -- A round of the loop, given the rounds after it.
  steal_loop-round :
      (fuel id i bound : ℕ) (draws : List ℕ) (w : Strategies rq.Queue) (n j : ℕ) (rest : List ℕ)
      → draw id i draws ≡ some (n, j, rest)
      → (v : Option ℕ) (t : Strategies rq.Queue) → steal_from rq kinds w n ≡ done (v, t)
      → Taken w v t
      → (j < bound → Full t.strategies → Steals t (steal_loop rq kinds fuel bound id j rest t))
      → Steals w (steal_loop rq kinds (suc fuel) bound id i draws w)
  unfolding steal_loop
  steal_loop-round fuel id i bound draws w n j rest drawn (some c) t took tk next =
      (some c, t, rw (drawn, steal_loop) (rw took refl), tk)
  steal_loop-round fuel id i bound draws w n j rest drawn none t took tk next =
      elim (Bool-cases (ltb j bound)) [
        | inl more ↦
            let (v, t', run, tk') = next (ground arith) tk.full in
            (
              v,
              t',
              steal_loop-next fuel id i bound draws w n j rest drawn t took more ∙ run,
              Taken-trans tk tk',
            )
        | inr over ↦ (none, t, rw (drawn, steal_loop) (rw took (rw over refl)), tk)
      ]

  pub steal_loop-Taken :
      (fuel id i bound : ℕ) (draws : List ℕ) (w : Strategies rq.Queue)
      → Full w.strategies
      → length w.strategies ≡ bound
      → bound ≤ i + fuel
      → i < bound
      → fuel ≤ others id draws
      → All (λ n. n < bound) draws
      → Steals w (steal_loop rq kinds fuel bound id i draws w)
  steal_loop-Taken zero id i bound draws w full len enough more many b = absurd (omega arith)
  steal_loop-Taken (suc fuel) id i bound draws w full len enough more many b =
      let (n, j, rest, run, up, low, left, b', _) = draw-some id i fuel bound draws many b in
      let (v, t, took, tk) = steal_from-Taken w n full (omega arith) in
      steal_loop-round fuel id i bound draws w n j rest run v t took tk λ below full'.
        steal_loop-Taken fuel id j bound rest t full' (tk.size ∙ len) (omega arith) below left b'
