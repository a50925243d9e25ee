-- ===== src/Net/Buffer/Sizes.antt =====
-- The size of a buffer and the sizes of its pieces.
use ustevent.Prelude.{ℕ, ◌+◌, ◌%◌, ◌^◌, ◌<◌, ◌≡◌, refl, arith, List, [], ◌∷◌, ◌++◌, none, some}
use ustevent.Net.Buffer.{
  ContinuousBuffer, Buffer, piece, no_buffer, buffer_of, concat, reset, reset_pieces, address,
  count, clear,
}

-- The sum of the sizes of the pieces.
abbrev pub total : List ContinuousBuffer → ℕ
total [] = 0
total (p ∷ ps) = p.length + total ps

total-append : (ps qs : List ContinuousBuffer) → total (ps ++ qs) ≡ total ps + total qs
total-append [] qs = omega arith
total-append (p ∷ ps) qs = omega (arith, total-append ps qs)

-- A change of a buffer.
pub data Change : Buffer → Buffer → Type 0 where
  concats : (b : Buffer) (base size : ℕ) → size < 2 ^ 64 → Change b (concat b base size)
  resets : (b : Buffer) (base size : ℕ) → size < 2 ^ 64 → Change b (reset b base size)
  clears : (b : Buffer) → Change b (clear b)

pub data Changes : Buffer → Type 0 where
  nothing : Changes no_buffer
  construct : (base size : ℕ) → size < 2 ^ 64 → Changes (buffer_of base size)
  change : {a b : Buffer} → Changes a → Change a b → Changes b

one_piece :
    (ps : List ContinuousBuffer) (base size : ℕ)
    → reset_pieces ps (piece base size) ≡ piece base size ∷ []
one_piece [] base size = refl
one_piece (q ∷ []) base size = refl
one_piece (q ∷ r ∷ rest) base size = refl

reset-size :
    (ps : List ContinuousBuffer) (base size : ℕ)
    → size < 2 ^ 64
    → size ≡ total (reset_pieces ps (piece base size)) % 2 ^ 64
reset-size ps base size h = rw (one_piece ps base size) (omega arith)

Change-size :
    {a b : Buffer}
    → Change a b
    → a.size ≡ total a.buffers % 2 ^ 64
    → b.size ≡ total b.buffers % 2 ^ 64
unfolding concat reset clear
Change-size (concats b base size h) e = omega (arith, total-append b.buffers (piece base size ∷ []))
Change-size (resets b base size h) e = reset-size b.buffers base size h
Change-size (clears b) e = refl

-- Whatever is done with a buffer, its size is the sum of the sizes of its pieces, modulo 2 ^ 64.
pub Changes-size : (b : Buffer) → Changes b → b.size ≡ total b.buffers % 2 ^ 64
unfolding buffer_of
Changes-size _ nothing = refl
Changes-size _ (construct base size h) = omega arith
Changes-size _ (change {a} {b} r c) = Change-size c (Changes-size a r)

-- After `reset` a buffer is one piece, with the given address and size, whatever it was before; after `clear` it has none.
pub reset-clear :
    (b : Buffer) (base size : ℕ)
    → (reset b base size ≡ buffer_of base size)
      × (count (reset b base size) ≡ 1)
      × (address (reset b base size) ≡ some (piece base size))
      × (address (clear b) ≡ none)
unfolding reset buffer_of count address clear
reset-clear b base size =
    let e = one_piece b.buffers base size in (rw e refl, rw e refl, rw e refl, refl)
