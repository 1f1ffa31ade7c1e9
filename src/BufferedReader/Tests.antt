-- ===== src/BufferedReader/Tests.antt =====
-- A reader with a few bytes in its buffer.
use schneeflocke.Base.{refl, inl, codes, arith}
use schneeflocke.BufferedReader.{
  BufferedReader, ServiceError, new_reader, read, start_async_reading,
  check_and_continue_reading_handler, read_handler,
}
use schneeflocke.BufferedReader.Flow.{
  Reach, fresh, next, starts, checks, completes, reads, IsBounded, Reach-IsBounded, IsFlowing,
  Step-IsFlowing,
}
use schneeflocke.Channel.{MaxSize}

abbrev filled : BufferedReader
filled =
    read_handler ServiceError.success (codes "hello")
      (check_and_continue_reading_handler (start_async_reading new_reader))

filled-Reach : Reach filled
unfolding start_async_reading check_and_continue_reading_handler new_reader
filled-Reach =
    next (next (next fresh starts) (checks (omega arith)))
      (completes ServiceError.success (codes "hello") refl (omega arith))

Reach-IsBounded_example : IsBounded filled
Reach-IsBounded_example = Reach-IsBounded filled-Reach

Step-IsFlowing_example : IsFlowing (read filled (MaxSize.at_most 2)).1
unfolding read_handler start_async_reading check_and_continue_reading_handler new_reader
Step-IsFlowing_example = Step-IsFlowing (reads (MaxSize.at_most 2)) filled-Reach tt (inl refl)
