-- ===== src/Tests/Buffers.antt =====
-- Lists of small buffers (network/src/nw_buf.c).
use viabtc_future.Prelude.{ℕ, ◌≡◌, ◌⊎◌, inr, refl, true, some, List, [], ◌∷◌, ◌++◌, length, arith}
use viabtc_future.Buffer.{
  Buf, Pool, BufList, nw_buf_write, nw_buf_alloc, link_tail, is_full, fill, write_tail,
  nw_buf_list_write,
}
use viabtc_future.Buffer.Fifo.{IsList, content}
use viabtc_future.Buffer.Writes.{nw_buf_list_write-Fifo}

-- Two of three bytes are written, and one of them is read.
abbrev half : Buf
half = record { size = 3; rpos = 1; wpos = 2; bytes = 1 ∷ 2 ∷ [] }

abbrev pool : Pool
pool = record { size = 3; free_total = 64; free_arr = half ∷ [] }

abbrev queue : BufList
queue = record { pool = pool; count = 1; limit = 2; bufs = half ∷ [] }

queue-IsList : IsList queue
queue-IsList = record {
  bufs = (record { read = omega arith; fits = omega arith; filled = refl }, tt);
  counted = refl;
  sized = omega arith;
  limited = inr (omega arith);
}

-- The limit of two buffers holds four of the five bytes.
written :
    (nw_buf_list_write 5 (3 ∷ 4 ∷ 5 ∷ 6 ∷ 7 ∷ []) queue)
    ≡ some (
      4,
      record {
        pool = record { size = 3; free_total = 64; free_arr = [] };
        count = 2;
        limit = 2;
        bufs =
            record { size = 3; rpos = 1; wpos = 3; bytes = 1 ∷ 2 ∷ 3 ∷ [] }
            ∷ record { size = 3; rpos = 0; wpos = 3; bytes = 4 ∷ 5 ∷ 6 ∷ [] }
            ∷ [];
      },
    )
unfolding nw_buf_list_write write_tail fill nw_buf_write nw_buf_alloc link_tail
written = refl

nw_buf_list_write-Fifo_example :
    (n : ℕ) × (list' : BufList) × (left : List ℕ) × (nw_buf_list_write 5
        (3 ∷ 4 ∷ 5 ∷ 6 ∷ 7 ∷ [])
        queue
      ≡ some (n, list'))
    × IsList list'
    × ((ws : List ℕ) × (3 ∷ 4 ∷ 5 ∷ 6 ∷ 7 ∷ [] ≡ ws ++ left)
        × (n ≡ length ws)
        × (content list'.bufs ≡ content queue.bufs ++ ws))
    × ((left ≡ []) ⊎ (is_full list' ≡ true))
nw_buf_list_write-Fifo_example =
    nw_buf_list_write-Fifo 5 (3 ∷ 4 ∷ 5 ∷ 6 ∷ 7 ∷ []) queue queue-IsList (omega arith)
