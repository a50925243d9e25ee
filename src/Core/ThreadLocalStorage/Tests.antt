-- ===== src/Core/ThreadLocalStorage/Tests.antt =====
-- Two objects and two threads.
use ustevent.Prelude.{ℕ, ◌≡◌, refl, true, some, none, [], ◌∷◌}
use ustevent.Core.ThreadLocalStorage.{Owner, Storage, empty_storage, construct, get, destruct}
use ustevent.Core.ThreadLocalStorage.Kept.{
  Reached, nothing_yet, constructs, Since, got, used, destructed, get-Since,
}

abbrev one : Storage ℕ
one = (construct empty_storage true (some 7)).1

abbrev first : Owner
first = (construct {A = ℕ} empty_storage true (some 7)).0

abbrev two : Storage ℕ
two = (construct one true none).1

abbrev second : Owner
second = (construct one true none).0

two-Reached : Reached 0 two (second ∷ first ∷ [])
two-Reached =
    constructs one (first ∷ []) true none (constructs empty_storage [] true (some 7) nothing_yet)

-- Thread 3 gets 10 from the first object and 20 from the second one, which is then destroyed.
abbrev later : Storage ℕ
later = (destruct 0 (get 0 (get 0 two first 3 10).1 second 3 20).1 second).1

later-Since : Since 0 first 3 10 later (first ∷ [])
unfolding construct get
later-Since =
    destructed (get 0 (get 0 two first 3 10).1 second 3 20).1 second [] (first ∷ [])
      (used (get 0 two first 3 10).1 second [] (first ∷ []) 3 20
        (got two (second ∷ []) [] 10 two-Reached refl))
      refl

get-Since_example : (get 0 later first 3 40).0 ≡ 10
get-Since_example = get-Since 0 first 3 10 later (first ∷ []) 40 later-Since
