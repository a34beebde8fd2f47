-- ===== src/Session/Sends.antt =====
-- network/src/nw_ses.c for stream sockets: what a session sends. What the socket does not take at once
-- waits in the list of buffers. The socket's answers are an argument of each call; `on_error` closes
-- the session, as the callbacks of nw_svr.c and nw_clt.c do.
pub mod Stream
pub mod Queued
pub mod Drained
pub mod Delivered
use viabtc_future.Prelude.{
  ℕ, zero, suc, ◌+◌, ◌-◌, Bool, true, false, not, ◌&&◌, Option, none, some, List, [], ◌∷◌, ◌++◌,
  length, take, drop, if◌then◌else◌, ltb, ◌==◌,
}
use viabtc_future.Buffer.{Buf, BufList, nw_buf_size, nw_buf_list_write, nw_buf_list_shift}

-- What `write` returns: `took n` is one byte and n more, or all of them if there are fewer; EINTR; or
-- another error than EAGAIN and EWOULDBLOCK, which it returns when there are no answers any more.
pub data Taken : Type 0 where
  took : ℕ → Taken
  again : Taken
  refused : Taken

-- The state that sending works on: whether the socket is open, whether the loop waits until it can be
-- written, the buffers, and the bytes that the socket has taken.
pub record Sender : Type 0 where
  pub is_open : Bool
  pub writing : Bool
  pub write_buf : BufList
  pub sent : List ℕ

-- What a write has taken, whether it has stopped with EAGAIN or EWOULDBLOCK, and what is left of the
-- answers.
pub record Written : Type 0 where
  pub nwrite : ℕ
  pub blocked : Bool
  pub answers : List Taken

unfoldable pub nw_write_stream : List Taken → List ℕ → Written
nw_write_stream answers [] = record { nwrite = 0; blocked = false; answers = answers }
nw_write_stream [] (b ∷ bs) = record { nwrite = 0; blocked = true; answers = [] }
nw_write_stream (again ∷ answers) (b ∷ bs) = nw_write_stream answers (b ∷ bs)
nw_write_stream (refused ∷ answers) (b ∷ bs) = record {
  nwrite = 0;
  blocked = false;
  answers = answers;
}
nw_write_stream (took n ∷ answers) (b ∷ bs) =
    let ret = suc (if ltb n (length bs) then n else length bs) in
    let rest = nw_write_stream answers (drop ret (b ∷ bs)) in
    record rest { nwrite = ret + rest.nwrite }

-- The loop of `nw_ses_close` over the buffers.
unfoldable pub shift_all : ℕ → BufList → BufList
shift_all zero list = list
shift_all (suc count) list = shift_all count (nw_buf_list_shift list)

unfoldable pub nw_ses_close : Sender → Sender
nw_ses_close ses = record ses {
  is_open = false;
  writing = false;
  write_buf = shift_all ses.write_buf.count ses.write_buf;
}

-- Data that goes to the buffers: where they do not take all of it, the session is closed. `none` would
-- be a write that goes on for ever.
unfoldable pub queue_bytes : List ℕ → Bool → Sender → Option (Bool × Sender)
queue_bytes bytes writing ses = elim (nw_buf_list_write (length bytes) bytes ses.write_buf) [
  | none ↦ none
  | some (nwrite, list) ↦
      let ses' = record ses { write_buf = list } in
      if nwrite == length bytes
      then some (true, record ses' { writing = writing })
      else some (false, nw_ses_close ses')
]

-- What `nw_ses_send` does where no buffer waits.
unfoldable pub write_now : List Taken → List ℕ → Sender → Option (Bool × Sender)
write_now answers bytes ses =
    let w = nw_write_stream answers bytes in
    let ses' = record ses { sent = ses.sent ++ take w.nwrite bytes } in
    if ltb w.nwrite (length bytes)
    then (if w.blocked
        then queue_bytes (drop w.nwrite bytes) true ses'
        else some (false, nw_ses_close ses'))
    else some (true, ses')

-- `false` for -1.
unfoldable pub nw_ses_send : List Taken → List ℕ → Sender → Option (Bool × Sender)
nw_ses_send answers bytes ses =
    if not ses.is_open
    then some (false, ses)
    else if ltb 0 ses.write_buf.count
    then queue_bytes bytes ses.writing ses
    else write_now answers bytes ses

-- The loop of `on_can_write`, with the number of buffers. The list has as many as it counts.
unfoldable pub write_bufs : ℕ → List Taken → Sender → Sender
write_bufs zero answers ses = ses
write_bufs (suc count) answers ses = elim (ses.write_buf.bufs) [
  | [] ↦ ses
  | buf ∷ bufs ↦
      let bytes = drop buf.rpos buf.bytes in
      let w = nw_write_stream answers bytes in
      let ses' = record ses { sent = ses.sent ++ take w.nwrite bytes } in
      let list = ses.write_buf in
      let rest = write_bufs count w.answers (record ses' { write_buf = nw_buf_list_shift list }) in
      if ltb w.nwrite (nw_buf_size buf)
      then (if w.blocked
          then record ses' {
            write_buf = record list { bufs = record buf { rpos = buf.rpos + w.nwrite } ∷ bufs };
          }
          else nw_ses_close ses')
      else rest
]

unfoldable pub on_can_write : List Taken → Sender → Sender
on_can_write answers ses =
    let ses' = write_bufs ses.write_buf.count answers ses in
    if not ses.is_open
    then ses
    else if ses'.is_open && (ses'.write_buf.count == 0)
    then record ses' { writing = false }
    else ses'

-- What happens to a session, in its order: it is given bytes to send, or the loop finds that it can
-- be written.
pub data IoEvent : Type 0 where
  sends : List ℕ → List Taken → IoEvent
  can_write : List Taken → IoEvent

unfoldable pub run_events : List IoEvent → Sender → Option Sender
run_events [] ses = some ses
run_events (sends bytes answers ∷ events) ses = elim (nw_ses_send answers bytes ses) [
  | none ↦ none
  | some (ret, ses') ↦ run_events events ses'
]
run_events (can_write answers ∷ events) ses = run_events events (on_can_write answers ses)

-- All that was to be sent.
abbrev pub asked : List IoEvent → List ℕ
asked [] = []
asked (sends bytes answers ∷ events) = bytes ++ asked events
asked (can_write answers ∷ events) = asked events
