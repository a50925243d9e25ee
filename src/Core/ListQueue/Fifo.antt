-- ===== src/Core/ListQueue/Fifo.antt =====
-- The queue that ListQueue is meant to be: a list of elements, the oldest one first.
use ustevent.Prelude.{Option, none, some, List, [], ◌∷◌, ◌++◌}
use ustevent.Core.ListQueue.{Call, put_sp, put_mp, take_sc, take_mc, take_mc_weak}

module _ {A : Type 0} where
  abbrev pub dequeue : List A → Option A × List A
  dequeue [] = (none, [])
  dequeue (x ∷ xs) = (some x, xs)

  unfoldable pub answer : List A → Call A → Option A × List A
  answer xs (put_sp x) = (none, xs ++ x ∷ [])
  answer xs (put_mp x) = (none, xs ++ x ∷ [])
  answer xs take_sc = dequeue xs
  answer xs take_mc = dequeue xs
  answer xs take_mc_weak = dequeue xs

  unfoldable pub answers : List A → List (Call A) → List (Option A)
  answers xs [] = []
  answers xs (c ∷ cs) = let (out, ys) = answer xs c in out ∷ answers ys cs
