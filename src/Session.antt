-- ===== src/Session.antt =====
-- network/src/nw_ses.c for stream sockets: what a session reads is cut into packets by its decoder,
-- and what it cannot write at once waits in its list of buffers. What the socket answers is an
-- argument of each call, and so is the decoder. The callbacks `on_error` and `on_close` close the
-- session, as those of nw_svr.c do.
pub mod Sends
pub mod Cuts
pub mod Reads
pub mod Packets
use viabtc_future.Prelude.{
  ℕ, zero, suc, ◌+◌, ◌-◌, Bool, true, false, Option, none, some, List, [], ◌∷◌, ◌++◌, length, take,
  drop, if◌then◌else◌, ltb, ◌==◌,
}
use viabtc_future.Buffer.{Buf, Pool, nw_buf_alloc, nw_buf_free, nw_buf_shift, nw_buf_size}
use viabtc_future.Rpc.{Decoded, incomplete, bad, complete}

-- What `read` returns: bytes, of which none are the end of the stream; EINTR; or another error than
-- EAGAIN and EWOULDBLOCK.
pub data Answer : Type 0 where
  got : List ℕ → Answer
  interrupted : Answer
  failed : Answer

-- `lost` where a handler has released the session.
pub data SesState : Type 0 where
  running closed broken lost : SesState

-- A session, with the packets that its handler has got.
pub record Session : Type 0 where
  pub state : SesState
  pub pool : Pool
  pub read_buf : Option Buf
  pub received : List (List ℕ)

-- The state of the session, its buffer, and the packets so far.
abbrev pub Read : Type 0
Read = SesState × Buf × List (List ℕ)

-- The buffer behind what `read` has put there.
unfoldable pub fill_buf : List ℕ → Buf → Buf
fill_buf bytes buf = record buf { bytes = buf.bytes ++ bytes; wpos = buf.wpos + length bytes }

-- Where the decoder wants more bytes: a full buffer has no room for them.
unfoldable pub wait_more : Buf → List (List ℕ) → Read
wait_more buf received =
    let buf' = nw_buf_shift buf in
    if buf'.wpos == buf'.size then (broken, buf', received) else (running, buf', received)

-- What `on_can_read` leaves: an empty buffer goes back to the pool, and so does that of a session
-- which `nw_ses_close` has closed.
unfoldable pub finish_read : Pool → Read → Session
finish_read pool (running, buf, received) =
    if nw_buf_size buf == 0
    then record {
      state = running;
      pool = nw_buf_free buf pool;
      read_buf = none;
      received = received;
    }
    else record { state = running; pool = pool; read_buf = some buf; received = received }
finish_read pool (state, buf, received) = record {
  state = state;
  pool = nw_buf_free buf pool;
  read_buf = none;
  received = received;
}

-- The buffer that is read into, and the pool.
unfoldable pub take_buf : Session → Buf × Pool
take_buf ses = elim (ses.read_buf) [ none ↦ nw_buf_alloc ses.pool | some buf ↦ (buf, ses.pool) ]

-- `keeps` says whether the session is still there after its handler has got a packet.
module _ (decode_pkg : List ℕ → Decoded) (keeps : List ℕ → Bool) where
  -- The loop of `on_can_read` over the packets in the buffer, on fuel.
  unfoldable pub decode_all : ℕ → Buf → List (List ℕ) → Option Read
  decode_all zero buf received = none
  decode_all (suc fuel) buf received =
      let unread = drop buf.rpos buf.bytes in
      if nw_buf_size buf == 0 then some (running, buf, received) else elim (decode_pkg unread) [
        | bad ↦ some (broken, buf, received)
        | incomplete ↦ some (wait_more buf received)
        | complete zero ↦ some (wait_more buf received)
        | complete (suc n) ↦
            let pkg = take (suc n) unread in
            let rest =
              decode_all fuel (record buf { rpos = buf.rpos + suc n }) (received ++ pkg ∷ []) in
            if keeps pkg then rest else some (lost, buf, received ++ pkg ∷ [])
      ]

  -- The loop of `on_can_read` over what the socket has, which ends with EAGAIN. Where the fuel has
  -- run out, there is no result.
  unfoldable pub read_all : List Answer → Buf → List (List ℕ) → Option Read
  read_all [] buf received = some (running, buf, received)
  read_all (interrupted ∷ answers) buf received = read_all answers buf received
  read_all (failed ∷ answers) buf received = some (broken, buf, received)
  read_all (got [] ∷ answers) buf received = some (closed, buf, received)
  read_all (got (b ∷ bs) ∷ answers) buf received =
      let filled = fill_buf (b ∷ bs) buf in
      elim (decode_all (suc (nw_buf_size filled)) filled received) [
        | none ↦ none
        | some (running, buf', received') ↦ read_all answers (nw_buf_shift buf') received'
        | some (other, buf', received') ↦ some (other, buf', received')
      ]

  unfoldable pub on_can_read : List Answer → Session → Option Session
  on_can_read answers ses =
      let (buf, pool) = take_buf ses in
      elim (ses.state) [
        | running ↦ elim (read_all answers buf ses.received) [
          | none ↦ none
          | some r ↦ some (finish_read pool r)
        ]
        | _ ↦ some ses
      ]
