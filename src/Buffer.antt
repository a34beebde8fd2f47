-- ===== src/Buffer.antt =====
-- network/src/nw_buf.c: buffers of bytes, the pool that they come from, and the list of buffers that
-- holds what a connection has still to send. A buffer keeps the bytes before `wpos`; the pool keeps
-- freed buffers in a stack. `malloc` and `realloc` do not fail.
pub mod Fifo
pub mod Writes
pub mod Ends
use viabtc_future.Prelude.{
  ℕ, zero, suc, ◌+◌, ◌-◌, ◌*◌, Bool, true, false, not, ◌&&◌, Option, none, some, List, [], ◌∷◌,
  ◌++◌, if◌then◌else◌, ltb, leb, ◌==◌, length, take, drop,
}

pub record Buf : Type 0 where
  pub size : ℕ
  pub rpos : ℕ
  pub wpos : ℕ
  pub bytes : List ℕ

-- `nw_buf_pool`; `free_arr` has its last entry first.
pub record Pool : Type 0 where
  pub size : ℕ
  pub free_total : ℕ
  pub free_arr : List Buf

-- `nw_buf_list`, from `head` to `tail`.
pub record BufList : Type 0 where
  pub pool : Pool
  pub count : ℕ
  pub limit : ℕ
  pub bufs : List Buf

abbrev pub nw_buf_size : Buf → ℕ
nw_buf_size buf = buf.wpos - buf.rpos

abbrev pub nw_buf_avail : Buf → ℕ
nw_buf_avail buf = buf.size - buf.wpos

unfoldable pub nw_buf_write : List ℕ → Buf → ℕ × Buf
nw_buf_write bs buf =
    let available = buf.size - buf.wpos in
    let wlen = if ltb available (length bs) then available else length bs in
    (wlen, record buf { bytes = buf.bytes ++ take wlen bs; wpos = buf.wpos + wlen })

unfoldable pub nw_buf_shift : Buf → Buf
nw_buf_shift buf =
    if buf.rpos == buf.wpos
    then record buf { rpos = 0; wpos = 0; bytes = [] }
    else if not (buf.rpos == 0)
    then record buf { bytes = drop buf.rpos buf.bytes; wpos = buf.wpos - buf.rpos; rpos = 0 }
    else buf

unfoldable pub nw_buf_pool_create : ℕ → Pool
nw_buf_pool_create size = record { size = size; free_total = 64; free_arr = [] }

abbrev pub new_buf : ℕ → Buf
new_buf size = record { size = size; rpos = 0; wpos = 0; bytes = [] }

-- The buffer, and the pool that is left.
unfoldable pub nw_buf_alloc : Pool → Buf × Pool
nw_buf_alloc pool = elim (pool.free_arr) [
  | [] ↦ (new_buf pool.size, pool)
  | buf ∷ rest ↦ (
    record buf { size = pool.size; rpos = 0; wpos = 0; bytes = [] },
    record pool { free_arr = rest },
  )
]

unfoldable pub nw_buf_free : Buf → Pool → Pool
nw_buf_free buf pool =
    if ltb (length pool.free_arr) pool.free_total
    then record pool { free_arr = buf ∷ pool.free_arr }
    else if ltb pool.free_total 65535
    then record pool { free_total = pool.free_total * 2; free_arr = buf ∷ pool.free_arr }
    else pool

unfoldable pub nw_buf_list_create : ℕ → Pool → BufList
nw_buf_list_create limit pool = record { pool = pool; count = 0; limit = limit; bufs = [] }

abbrev pub is_full : BufList → Bool
is_full list = not (list.limit == 0) && leb list.limit list.count

-- A buffer behind the tail.
unfoldable pub link_tail : Buf → Pool → BufList → BufList
link_tail buf pool list = record list {
  pool = pool;
  count = list.count + 1;
  bufs = list.bufs ++ buf ∷ [];
}

-- The loop of `nw_buf_list_write`, on fuel: the bytes that are left, and the list. Where it has no
-- fuel and bytes are left, it goes on.
unfoldable pub fill : ℕ → List ℕ → BufList → Option (List ℕ × BufList)
fill fuel [] list = some ([], list)
fill zero (b ∷ bs) list = none
fill (suc fuel) (b ∷ bs) list =
    let (buf, pool) = nw_buf_alloc list.pool in
    let (ret, buf') = nw_buf_write (b ∷ bs) buf in
    let rest = fill fuel (drop ret (b ∷ bs)) (link_tail buf' pool list) in
    if is_full list then some (b ∷ bs, list) else rest

-- The write to the tail, which stands before the loop: the bytes that are left, and the buffers.
unfoldable pub write_tail : List ℕ → List Buf → List ℕ × List Buf
write_tail bs [] = (bs, [])
write_tail bs (buf ∷ []) =
    let (ret, buf') = nw_buf_write bs buf in
    if nw_buf_avail buf == 0 then (bs, buf ∷ []) else (drop ret bs, buf' ∷ [])
write_tail bs (buf ∷ next ∷ bufs) = let rest = write_tail bs (next ∷ bufs) in (rest.0, buf ∷ rest.1)

unfoldable pub nw_buf_list_write : ℕ → List ℕ → BufList → Option (ℕ × BufList)
nw_buf_list_write fuel bs list =
    let (left, bufs) = write_tail bs list.bufs in
    elim (fill fuel left (record list { bufs = bufs })) [
      | none ↦ none
      | some (left', list') ↦ some (length bs - length left', list')
    ]

unfoldable pub nw_buf_list_append : List ℕ → BufList → ℕ × BufList
nw_buf_list_append bs list =
    let (buf, pool) = nw_buf_alloc list.pool in
    if is_full list
    then (0, list)
    else if ltb buf.size (length bs)
    then (0, record list { pool = nw_buf_free buf pool })
    else (length bs, link_tail (nw_buf_write bs buf).1 pool list)

unfoldable pub nw_buf_list_shift : BufList → BufList
nw_buf_list_shift list = elim (list.bufs) [
  | [] ↦ list
  | buf ∷ bufs ↦ record list {
    bufs = bufs;
    count = list.count - 1;
    pool = nw_buf_free buf list.pool;
  }
]
