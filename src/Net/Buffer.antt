-- ===== src/Net/Buffer.antt =====
-- ustevent/net/detail/Buffer.h and .cpp with ustevent/net/detail/linux/ContinuousBuffer.h and .cpp:
-- the pieces of memory of one scattered read or write. An address is a number.
pub mod Sizes
mod Tests
use ustevent.Prelude.{ℕ, ◌+◌, ◌%◌, ◌^◌, List, [], ◌∷◌, ◌++◌, Option, none, some, length}

-- The `iovec` of a piece.
pub record ContinuousBuffer : Type 0 where
  pub base : ℕ
  pub length : ℕ

pub record Buffer : Type 0 where
  pub buffers : List ContinuousBuffer
  pub size : ℕ

abbrev pub piece : ℕ → ℕ → ContinuousBuffer
piece base size = record { base = base; length = size }

abbrev pub no_buffer : Buffer
no_buffer = record { buffers = []; size = 0 }

unfoldable pub buffer_of : ℕ → ℕ → Buffer
buffer_of base size = record { buffers = piece base size ∷ []; size = size }

unfoldable pub concat : Buffer → ℕ → ℕ → Buffer
concat b base size = record {
  buffers = b.buffers ++ piece base size ∷ [];
  size = (b.size + size) % 2 ^ 64;
}

-- The pieces after `reset`: one is made, reused, or kept of several.
abbrev pub reset_pieces : List ContinuousBuffer → ContinuousBuffer → List ContinuousBuffer
reset_pieces [] p = p ∷ []
reset_pieces (q ∷ []) p = p ∷ []
reset_pieces (q ∷ r ∷ rest) p = p ∷ []

unfoldable pub reset : Buffer → ℕ → ℕ → Buffer
reset b base size = record { buffers = reset_pieces b.buffers (piece base size); size = size }

-- The first piece, or a null pointer.
unfoldable pub address : Buffer → Option ContinuousBuffer
address b = elim b.buffers [ [] ↦ none | p ∷ rest ↦ some p ]

unfoldable pub count : Buffer → ℕ
count b = length b.buffers

unfoldable pub clear : Buffer → Buffer
clear b = record { buffers = []; size = 0 }
