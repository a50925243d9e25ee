-- ===== src/Core/AppendOnlyArray.antt =====
-- ustevent/core/detail/AppendOnlyArray.h and .hpp: an array in buckets of doubling size that grows
-- without moving its elements. A call of `emplace` is one step. `__builtin_clzll` is a parameter, and
-- so are `blank`, the element that `new T[n]` makes, and the type of the elements.
pub mod Powers
pub mod Buckets
mod Tests
use ustevent.Prelude.{
  ℕ, suc, ◌+◌, ◌-◌, ◌%◌, ◌^◌, Bool, true, false, Option, none, some, List, [], ◌∷◌, get_elem?,
  update, Outcome, done, spin, fault, ◌>>=◌, ltb, leb, ◌==◌, if◌then◌else◌,
}

-- `_bucket_length_data` and `_bucket_length_sum_data`.
abbrev pub bucket_size : List ℕ
bucket_size =
    0x1 ∷ 0x2 ∷ 0x4 ∷ 0x8 ∷ 0x10 ∷ 0x20 ∷ 0x40 ∷ 0x80 ∷ 0x100 ∷ 0x200 ∷ 0x400 ∷ 0x800 ∷ 0x1000
    ∷ 0x2000 ∷ 0x4000 ∷ 0x8000 ∷ 0x10000 ∷ 0x20000 ∷ 0x40000 ∷ 0x80000 ∷ 0x100000 ∷ 0x200000
    ∷ 0x400000 ∷ 0x800000 ∷ 0x1000000 ∷ 0x2000000 ∷ 0x4000000 ∷ 0x8000000 ∷ 0x10000000 ∷ 0x20000000
    ∷ 0x40000000 ∷ 0x80000000 ∷ []

abbrev pub bucket_size_sum : List ℕ
bucket_size_sum =
    0x1 ∷ 0x3 ∷ 0x7 ∷ 0xf ∷ 0x1f ∷ 0x3f ∷ 0x7f ∷ 0xff ∷ 0x1ff ∷ 0x3ff ∷ 0x7ff ∷ 0xfff ∷ 0x1fff
    ∷ 0x3fff ∷ 0x7fff ∷ 0xffff ∷ 0x1ffff ∷ 0x3ffff ∷ 0x7ffff ∷ 0xfffff ∷ 0x1fffff ∷ 0x3fffff
    ∷ 0x7fffff ∷ 0xffffff ∷ 0x1ffffff ∷ 0x3ffffff ∷ 0x7ffffff ∷ 0xfffffff ∷ 0x1fffffff ∷ 0x3fffffff
    ∷ 0x7fffffff ∷ 0xffffffff ∷ []

-- A read of one of these arrays; beyond it it is undefined behaviour.
unfoldable pub entry : List ℕ → ℕ → Outcome ℕ
entry table i = elim (get_elem? table i) [ none ↦ fault | some n ↦ done n ]

pub record AppendOnlyArray (A : Type 0) : Type 0 where
  pub index : ℕ
  pub size : ℕ
  pub array : ℕ → Option (ℕ → A)

module _ {A : Type 0} (clzll : ℕ → ℕ) (blank : A) where
  unfoldable pub log2 : ℕ → ℕ
  log2 x = 64 - clzll x - 1

  abbrev pub array_index : ℕ → ℕ
  array_index index = log2 (index + 1)

  unfoldable pub index_in_bucket : ℕ → ℕ → Outcome ℕ
  index_in_bucket array_index index =
      if ltb 0 array_index
      then (do
        sum ← entry bucket_size_sum (array_index - 1)
        done ((index + (2 ^ 64 - sum)) % 2 ^ 64))
      else done index

  -- The element of a bucket of `n` elements; there is none in a null bucket or beyond the end.
  unfoldable pub element : Option (ℕ → A) → ℕ → ℕ → Outcome (Option A)
  element none n i = fault
  element (some bucket) n i = if ltb i n then done (some (bucket i)) else fault

  -- `none` where `at` throws `out_of_range`.
  unfoldable pub at : AppendOnlyArray A → ℕ → Outcome (Option A)
  at s index = if leb s.size index then done none else do
    i ← index_in_bucket (array_index index) index
    n ← entry bucket_size (array_index index)
    element (s.array (array_index index)) n i

  -- The bucket, which is made if there is none.
  abbrev pub bucket_of : Option (ℕ → A) → ℕ → A
  bucket_of none i = blank
  bucket_of (some bucket) i = bucket i

  -- The loop on `_size` waits for the threads that have taken a smaller index.
  unfoldable pub emplace : AppendOnlyArray A → A → Outcome (ℕ × AppendOnlyArray A)
  emplace s element = do
    i ← index_in_bucket (array_index s.index) s.index
    n ← entry bucket_size (array_index s.index)
    if leb n i
        then fault
        else if s.index == s.size
        then done (
          s.index,
          record {
            index = s.index + 1;
            size = s.index + 1;
            array =
                update s.array (array_index s.index)
                  (some (update (bucket_of (s.array (array_index s.index))) i element));
          },
        )
        else spin
