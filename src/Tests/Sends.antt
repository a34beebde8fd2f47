-- ===== src/Tests/Sends.antt =====
-- What a session sends (network/src/nw_ses.c), with concrete answers of the socket.
use viabtc_future.Prelude.{◌≡◌, refl, true, false, some, List, [], ◌∷◌, arith}
use viabtc_future.Buffer.{
  BufList, nw_buf_list_write, nw_buf_list_shift, nw_buf_alloc, nw_buf_free, nw_buf_write, link_tail,
  fill, write_tail,
}
use viabtc_future.Buffer.Fifo.{IsList}
use viabtc_future.Session.Sends.{
  again, took, Sender, IoEvent, sends, can_write, run_events, asked, nw_write_stream, nw_ses_send,
  write_now, queue_bytes, write_bufs, on_can_write,
}
use viabtc_future.Session.Sends.Stream.{Delivers}
use viabtc_future.Session.Sends.Delivered.{run_events-Delivers}

-- Three buffers of four bytes each, at most.
abbrev buffers : BufList
buffers = record {
  pool = record { size = 4; free_total = 64; free_arr = [] };
  count = 0;
  limit = 3;
  bufs = [];
}

buffers-IsList : IsList buffers
buffers-IsList = record { bufs = tt; counted = refl; sized = omega arith; limited = ground arith }

abbrev opened : Sender
opened = record { is_open = true; writing = false; write_buf = buffers; sent = [] }

-- The socket takes two bytes, then three, and then all.
abbrev three_writes : List IoEvent
three_writes =
    sends (1 ∷ 2 ∷ 3 ∷ 4 ∷ 5 ∷ 6 ∷ 7 ∷ []) (took 1 ∷ again ∷ [])
    ∷ can_write (took 2 ∷ [])
    ∷ sends (8 ∷ 9 ∷ []) (took 5 ∷ [])
    ∷ []

half_sent :
    (ses : Sender) × (run_events three_writes opened ≡ some ses)
    × (ses.sent ≡ 1 ∷ 2 ∷ 3 ∷ 4 ∷ 5 ∷ [])
    × (ses.write_buf.count ≡ 2)
    × (ses.writing ≡ true)
unfolding run_events write_now nw_ses_send queue_bytes write_bufs on_can_write nw_write_stream
    nw_buf_list_write nw_buf_list_shift nw_buf_alloc nw_buf_free nw_buf_write link_tail fill
    write_tail
half_sent = (_, refl, refl, refl, refl)

run_events-Delivers_example :
    (ses' : Sender) × (run_events three_writes opened ≡ some ses')
    × Delivers (asked three_writes) ses'
run_events-Delivers_example = run_events-Delivers three_writes opened refl buffers-IsList refl refl
