-- ===== src/Tests/PipeTests.antt =====
-- The theorems on pipes at a concrete pipe, whose counters are about to wrap.
use xmu_learning_os.Base.{[], arith, false, refl, ◌++◌, ◌-◌, ◌^◌, ◌∷◌, ◌≡◌}
use xmu_learning_os.Pipe.{Pipe, put_byte, read_bytes, write_bytes}
use xmu_learning_os.Pipe.Fifo.{IsValid, contents}
use xmu_learning_os.Pipe.Stream.{Writes, read_bytes_lem, write_bytes_lem}

abbrev wrapping : Pipe
wrapping = record {
  content = λ i. i;
  nread = 2 ^ 32 - 2;
  nwrite = 2 ^ 32 - 1;
  readopen = 1;
  writeopen = 1;
}

wrapping-IsValid : IsValid wrapping
wrapping-IsValid = record {
  nread_fits = omega arith;
  nwrite_fits = omega arith;
  bounded = omega arith;
}

write_bytes_lem_example : Writes (7 ∷ 8 ∷ []) wrapping (write_bytes false (7 ∷ 8 ∷ []) wrapping)
write_bytes_lem_example = write_bytes_lem false (7 ∷ 8 ∷ []) wrapping wrapping-IsValid

read_bytes_lem_example :
    contents wrapping ≡ (read_bytes 4 wrapping).0 ++ contents (read_bytes 4 wrapping).1
read_bytes_lem_example = (read_bytes_lem 4 wrapping wrapping-IsValid).0

wraps : contents (write_bytes false (7 ∷ 8 ∷ []) wrapping).1 ≡ 510 ∷ 7 ∷ 8 ∷ []
unfolding write_bytes put_byte
wraps = refl
