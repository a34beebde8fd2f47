-- ===== src/Tests/Sessions.antt =====
-- Checksums, packets and stream sessions (utils/src/ut_crc32.c, ut_rpc.c, network/src/nw_ses.c) at
-- concrete bytes.
use viabtc_future.Prelude.{
  ℕ, ◌≤◌, ◌<◌, ◌≡◌, refl, true, none, some, List, [], ◌∷◌, ◌++◌, length, arith, drop, take,
}
use viabtc_future.Pack.{le_bytes, le_value}
use viabtc_future.Buffer.{nw_buf_alloc, nw_buf_shift}
use viabtc_future.Crc32.{crc_c, get_word, crc32_byte, crc32_loop, generate_crc32c}
use viabtc_future.Crc32.Serial.{serial_crc32, generate_crc32c-serial}
use viabtc_future.Crc32.Detects.{generate_crc32c_detects}
use viabtc_future.Rpc.{
  RpcPkg, put_fields, get_fields, wire, rpc_pack, complete, as_int, clear_crc, rpc_decode, recv_pkg,
}
use viabtc_future.Rpc.RoundTrip.{IsPacket, sealed, rpc_pack-rpc_decode, rpc_decode_overruns}
use viabtc_future.Session.{
  Answer, got, interrupted, running, Session, fill_buf, wait_more, decode_all, take_buf,
  on_can_read,
}
use viabtc_future.Session.Packets.{packets, wires-IsFrame, All-kept, on_can_read-packets}
use viabtc_future.Session.Reads.{Streams, on_can_read-Streams}

-- The one_to_nine from 1 to 9.
abbrev one_to_nine : List ℕ
one_to_nine = 0x31 ∷ 0x32 ∷ 0x33 ∷ 0x34 ∷ 0x35 ∷ 0x36 ∷ 0x37 ∷ 0x38 ∷ 0x39 ∷ []

check_value : generate_crc32c one_to_nine ≡ 0xcbf4_3926
unfolding generate_crc32c crc32_loop crc32_byte get_word crc_c
check_value = refl

generate_crc32c-serial_example : generate_crc32c one_to_nine ≡ serial_crc32 one_to_nine
generate_crc32c-serial_example = generate_crc32c-serial one_to_nine (omega arith)

abbrev seven : List ℕ
seven = 7 ∷ []

generate_crc32c_detects_example : seven ≡ seven
generate_crc32c_detects_example =
    generate_crc32c_detects one_to_nine seven seven one_to_nine (omega arith) (omega arith)
      (omega arith) (omega arith) refl (omega arith) refl

abbrev ping : RpcPkg
ping = record {
  magic = 0;
  command = 7;
  pkg_type = 0;
  result = 0;
  crc32 = 0;
  sequence = 3;
  req_id = 9;
  body_size = 2;
  ext_size = 1;
  ext = 5 ∷ [];
  body = 1 ∷ 2 ∷ [];
}

ping-IsPacket : IsPacket ping
ping-IsPacket = omega arith

rpc_pack-rpc_decode_example :
    (bytes : List ℕ) × ((rpc_pack ping 0).0 ≡ some bytes)
    × (length bytes ≤ (rpc_pack ping 0).1)
    × (rpc_decode (bytes ++ seven) ≡ complete (length bytes))
    × (recv_pkg (bytes ++ seven) ≡ sealed ping)
rpc_pack-rpc_decode_example = rpc_pack-rpc_decode ping ping-IsPacket 0 seven

-- A header that claims a body of 2 ^ 32 - 1 bytes.
abbrev huge : RpcPkg
huge = record ping { body_size = 0xffff_ffff; ext_size = 1; ext = []; body = [] }

rpc_decode_overruns_example :
    (rpc_decode (wire (sealed huge)) ≡ complete (length (wire (sealed huge))))
    × (length (recv_pkg (wire (sealed huge))).body < (recv_pkg (wire (sealed huge))).body_size)
unfolding wire put_fields le_bytes generate_crc32c crc32_loop crc32_byte get_word crc_c
rpc_decode_overruns_example = rpc_decode_overruns huge (omega arith) (omega arith) (omega arith)

abbrev fresh : Session
fresh = record {
  state = running;
  pool = record { size = 64; free_total = 64; free_arr = [] };
  read_buf = none;
  received = [];
}

-- Two packets, in three parts.
abbrev stream : List ℕ
stream = wire (sealed ping) ++ wire (sealed ping)

abbrev parts : List Answer
parts =
    got (take 10 stream) ∷ interrupted ∷ got (take 50 (drop 10 stream)) ∷ got (drop 60 stream) ∷ []

on_can_read-packets_example :
    (ses' : Session) × (on_can_read rpc_decode (λ pkg. true) parts fresh ≡ some ses')
    × (ses'.state ≡ running)
    × (ses'.received ≡ fresh.received ++ packets (ping ∷ ping ∷ []))
unfolding wire put_fields get_fields le_bytes le_value generate_crc32c crc32_loop crc32_byte
    get_word crc_c decode_all wait_more fill_buf rpc_decode clear_crc as_int nw_buf_shift take_buf
    nw_buf_alloc
on_can_read-packets_example =
    on_can_read-packets parts (ping ∷ ping ∷ []) fresh refl refl
      ((ping-IsPacket, omega arith), ((ping-IsPacket, omega arith), tt))
      (
        omega arith,
        drop 10 stream,
        refl,
        (omega arith, drop 60 stream, refl, (omega arith, [], refl, refl)),
      )

-- The first part alone, of ten bytes.
on_can_read-Streams_example :
    (ses' : Session) × (done : List (List ℕ)) × (pkgs' : List (List ℕ)) × (on_can_read rpc_decode
        (λ pkg. true)
        (got (take 10 stream) ∷ [])
        fresh
      ≡ some ses')
    × (packets (ping ∷ ping ∷ []) ≡ done ++ pkgs')
    × (ses'.received ≡ fresh.received ++ done)
    × Streams 64 pkgs' (drop 10 stream) ses'
    × (drop 10 stream ≡ [] → pkgs' ≡ [])
unfolding wire put_fields get_fields le_bytes le_value generate_crc32c crc32_loop crc32_byte
    get_word crc_c decode_all wait_more fill_buf rpc_decode clear_crc as_int nw_buf_shift take_buf
    nw_buf_alloc
on_can_read-Streams_example =
    on_can_read-Streams rpc_decode (λ pkg. true) 64 (got (take 10 stream) ∷ [])
      (packets (ping ∷ ping ∷ [])) stream (drop 10 stream) fresh
      (record { going = refl; sized = refl; buffered = refl })
      (wires-IsFrame 64 (ping ∷ ping ∷ [])
        ((ping-IsPacket, omega arith), ((ping-IsPacket, omega arith), tt)))
      (All-kept (packets (ping ∷ ping ∷ []))) (omega arith, drop 10 stream, refl, refl)
