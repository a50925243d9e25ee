-- ===== src/Net/Buffer/Tests.antt =====
-- The theorems on buffers at a buffer of two pieces.
use ustevent.Prelude.{◌%◌, ◌^◌, ◌≡◌, arith}
use ustevent.Net.Buffer.{Buffer, buffer_of, concat}
use ustevent.Net.Buffer.Sizes.{total, Changes, construct, change, concats, Changes-size}

abbrev two : Buffer
two = concat (buffer_of 4096 10) 8192 20

two-Changes : Changes two
two-Changes =
    change (construct 4096 10 (omega arith)) (concats (buffer_of 4096 10) 8192 20 (omega arith))

Changes-size_example : two.size ≡ total two.buffers % 2 ^ 64
Changes-size_example = Changes-size two two-Changes
