-- ===== src/Tests/Streams.antt =====
-- The theorems on byte_stream.cpp at a stream of three bytes.
use bcp_concept_prototype.Prelude.{ℕ, ◌≡◌, refl, List, [], ◌∷◌, ◌++◌, arith, take, drop}
use bcp_concept_prototype.Stream.{ByteStream, prepare, write, read}
use bcp_concept_prototype.Stream.Contents.{IsStream, contents}
use bcp_concept_prototype.Stream.Queue.{Holds, prepare-Holds, write-Holds}
use bcp_concept_prototype.Stream.Reads.{read-Holds}
use bcp_concept_prototype.Stream.Shifts.{read_ints, write_ints, read_ints-write_ints}

abbrev zeros : ℕ → ℕ
zeros i = 0

-- byte_stream( 2 ), which a write of three bytes makes grow.
abbrev small : ByteStream
small = prepare zeros 2

small-Holds : Holds small []
small-Holds = prepare-Holds zeros 2 (omega arith)

abbrev bytes : List ℕ
bytes = 7 ∷ 8 ∷ 9 ∷ []

abbrev full : ByteStream
full = write zeros bytes small

write-Holds_example : Holds full (contents small ++ bytes)
write-Holds_example = write-Holds zeros bytes small (small-Holds.0)

full-IsStream : IsStream full
full-IsStream = (write-Holds zeros bytes small (small-Holds.0)).0

read-Holds_example :
    ((read 2 full).1 ≡ take 2 (contents full)) × Holds (read 2 full).0 (drop 2 (contents full))
read-Holds_example = read-Holds 2 full full-IsStream

read_ints-write_ints_example :
    read_ints (1 ∷ 2 ∷ []) (write_ints zeros (70000 ∷ 4294967295 ∷ []) small)
    ≡ 70000 ∷ 4294967295 ∷ []
read_ints-write_ints_example =
    read_ints-write_ints zeros (70000 ∷ 4294967295 ∷ []) (1 ∷ 2 ∷ []) small small-Holds
      (omega arith, (omega arith, tt)) refl
