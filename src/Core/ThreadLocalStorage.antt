-- ===== src/Core/ThreadLocalStorage.antt =====
-- ustevent/core/concurrency/detail/ObjectScopedThreadLocalStorage.h and .hpp: a value for each pair of an object
-- and a thread. Each call, which runs under the mutex where it meets shared data, is one step.
pub mod Slots
pub mod Owners
pub mod Lives
pub mod Kept
mod Tests
use ustevent.Prelude.{
  ℕ, zero, suc, ◌+◌, ◌-◌, ◌<◌, Bool, true, false, not, ◌&&◌, ◌||◌, Option, none, some, List, [],
  ◌∷◌, ◌++◌, ◌==◌, ltb, if◌then◌else◌, update, length, set, get_or, replicate,
}
use ustevent.Core.ListNodeAllocator.Chains.{has}

-- A function is a number, which names it.
pub record Node (A : Type 0) : Type 0 where
  pub owner_id : ℕ
  pub value : A
  pub return_function : Option ℕ

-- An object: whether it has a function for the default value, and its other members.
pub record Owner : Type 0 where
  pub has_default : Bool
  pub return_function : Option ℕ
  pub my_id : ℕ
  pub my_index : ℕ

-- The static members, the last element of `s_available` first, and the vectors of the threads by their numbers.
pub record Storage (A : Type 0) : Type 0 where
  pub id : ℕ
  pub available : List ℕ
  pub owners : List ℕ
  pub thread_locals : List ℕ
  pub values : ℕ → List (Node A)

-- The vector of a thread, which is made and entered into the set at the first call.
abbrev pub enter_thread : List ℕ → ℕ → List ℕ
enter_thread threads t = if has t threads then threads else t ∷ threads

abbrev pub erase : ℕ → List ℕ → List ℕ
erase t [] = []
erase t (u ∷ us) = let rest = erase t us in if u == t then rest else u ∷ rest

module _ {A : Type 0} where
  abbrev pub empty_storage : Storage A
  empty_storage = record {
    id = 1;
    available = [];
    owners = [];
    thread_locals = [];
    values = λ t. [];
  }

  -- `s_id++` and `_getIndex`.
  abbrev pub index_of : Storage A → List ℕ → ℕ × Storage A
  index_of s (index ∷ rest) =
      (index, record s { id = s.id + 1; available = rest; owners = set s.owners index s.id })
  index_of s [] = (length s.owners, record s { id = s.id + 1; owners = s.owners ++ s.id ∷ [] })

  unfoldable pub construct : Storage A → Bool → Option ℕ → Owner × Storage A
  construct s has_default return_function =
      let (index, t) = index_of s s.available in
      (
        record {
          has_default = has_default;
          return_function = return_function;
          my_id = s.id;
          my_index = index;
        },
        t,
      )

  -- `blank` is a node that `resize` makes.
  abbrev pub blank : A → Node A
  blank a = record { owner_id = 0; value = a; return_function = none }

  abbrev pub resize : A → List (Node A) → ℕ → List (Node A)
  resize a v n = v ++ replicate (n - length v) (blank a)

  -- The node of an object that has no owner yet; `fresh` is the value of the default function.
  abbrev pub owned : Owner → A → Node A → Node A
  owned o fresh node =
      if node.owner_id == 0
      then record {
        owner_id = o.my_id;
        value = if o.has_default then fresh else node.value;
        return_function = o.return_function;
      }
      else node

  -- The vector with a node at the index.
  abbrev pub room : A → List (Node A) → ℕ → List (Node A)
  room a v index = if ltb index (length v) then v else resize a v (index + 1)

  -- `a` is the value that a new node has. The reference is to the value in the vector.
  unfoldable pub get : A → Storage A → Owner → ℕ → A → A × Storage A
  get a s o t fresh =
      let v = room a (s.values t) o.my_index in
      let node = owned o fresh (get_or v o.my_index (blank a)) in
      (
        node.value,
        record s {
          thread_locals = enter_thread s.thread_locals t;
          values = update s.values t (set v o.my_index node);
        },
      )

  -- What the destructor does with the vector of a thread.
  abbrev pub release_slot : A → Owner → List (Node A) → List (Node A)
  release_slot a o v =
      let node = get_or v o.my_index (blank a) in
      if ltb o.my_index (length v) && (node.owner_id == o.my_id)
      then set v o.my_index (record node { owner_id = 0 })
      else v

  -- The function that is called with a value, if there is one.
  abbrev pub returned : Option ℕ → A → List (ℕ × A)
  returned none x = []
  returned (some f) x = (f, x) ∷ []

  abbrev pub return_slots : A → Owner → (ℕ → List (Node A)) → List ℕ → List (ℕ × A)
  return_slots a o values [] = []
  return_slots a o values (t ∷ ts) =
      let node = get_or (values t) o.my_index (blank a) in
      let rest = return_slots a o values ts in
      if ltb o.my_index (length (values t)) && (node.owner_id == o.my_id)
      then returned node.return_function node.value ++ rest
      else rest

  -- The destructor: the calls of return functions, and the state.
  unfoldable pub destruct : A → Storage A → Owner → List (ℕ × A) × Storage A
  destruct a s o =
      let available = o.my_index ∷ s.available in
      let owners = set s.owners o.my_index 0 in
      let all = length available == length owners in
      (
        return_slots a o s.values s.thread_locals,
        record s {
          values = λ t. if has t s.thread_locals then release_slot a o (s.values t) else s.values t;
          available = if all then [] else available;
          owners = if all then [] else owners;
        },
      )

  -- The end of a thread: the loop of ~ObjectStorage over `_values` and `s_owners`.
  abbrev pub return_values : List (Node A) → List ℕ → List (ℕ × A)
  return_values [] owners = []
  return_values (node ∷ v) [] = []
  return_values (node ∷ v) (owner ∷ owners) =
      let rest = return_values v owners in
      if not (node.owner_id == 0) && (owner == node.owner_id)
      then returned node.return_function node.value ++ rest
      else rest

  unfoldable pub exit_thread : Storage A → ℕ → List (ℕ × A) × Storage A
  exit_thread s t = (
    return_values (s.values t) s.owners,
    record s { thread_locals = erase t s.thread_locals; values = update s.values t [] },
  )
