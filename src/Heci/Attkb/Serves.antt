-- ===== src/Heci/Attkb/Serves.antt =====
-- An engine that serves a keybox: what the exchange must answer for a file to be retrieved.
use trusty_platform_sand.Base.{ℕ, ◌+◌, ◌≤◌, ◌<◌, ◌≡◌, pos, List, length, take, slice}
use trusty_platform_sand.Base.Io.{Trace, done}
use trusty_platform_sand.Heci.Attkb.{
  Exchange, request, result, total_file_size, read_size, file_data, aligned_max_transfer_buffer,
}

-- The exchange of a request ends, with a status that is not negative and the result 0.
pub record Answered (exchange : Exchange) (offset size : ℕ) (t : Trace) : Type 0 where
  pub status : ℕ
  pub buf : List ℕ
  pub after : Trace
  pub answers : exchange (request offset size) t ≡ done (pos status, buf) after
  pub accepted : result buf ≡ 0

-- The answer holds a part of the file that is not empty and not longer than asked for.
pub record Piece (exchange : Exchange) (file : List ℕ) (offset size : ℕ) (t : Trace) : Type 0 where
  pub answer : Answered exchange offset size t
  pub not_empty : 0 < read_size answer.buf
  pub fits : read_size answer.buf ≤ size
  pub holds :
      take (read_size answer.buf) (file_data answer.buf) ≡ slice offset (read_size answer.buf) file

pub record Serves (exchange : Exchange) (file : List ℕ) : Type 0 where
  pub size : (t : Trace) → Answered exchange 0 0 t
  pub size_is : (t : Trace) → total_file_size (size t).buf ≡ length file
  pub piece :
      (offset n : ℕ) (t : Trace)
      → 0 < n
      → n ≤ aligned_max_transfer_buffer
      → offset + n ≤ length file
      → Piece exchange file offset n t
