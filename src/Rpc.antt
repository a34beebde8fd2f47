-- ===== src/Rpc.antt =====
-- utils/src/ut_rpc.c: packets with a header, an extension and a body, and a checksum over all of it.
-- `on_recv_pkg` of ut_rpc_svr.c and ut_rpc_clt.c reads a packet out of the bytes. The host is
-- little-endian, and `malloc` does not fail.
pub mod Fields
pub mod RoundTrip
use viabtc_future.Prelude.{
  ℕ, zero, suc, ◌+◌, ◌-◌, ◌*◌, ◌/◌, ◌%◌, ◌^◌, Option, none, some, List, [], ◌∷◌, ◌++◌, length, take,
  drop, if◌then◌else◌, ltb, ◌==◌, not,
}
use viabtc_future.Pack.{le_bytes, le_value}
use viabtc_future.Crc32.{generate_crc32c}

-- `rpc_pkg`; `ext` and `body` are the bytes behind the pointers.
pub record RpcPkg : Type 0 where
  pub magic : ℕ
  pub command : ℕ
  pub pkg_type : ℕ
  pub result : ℕ
  pub crc32 : ℕ
  pub sequence : ℕ
  pub req_id : ℕ
  pub body_size : ℕ
  pub ext_size : ℕ
  pub ext : List ℕ
  pub body : List ℕ

abbrev pub rpc_pkg_magic : ℕ
rpc_pkg_magic = 0x7065_6562

abbrev pub head_size : ℕ
head_size = 36

-- UINT32_MAX / 2 - UINT16_MAX - sizeof(rpc_pkg).
abbrev pub max_body_size : ℕ
max_body_size = 0xffff_ffff / 2 - 0xffff - 52

-- The widths in bytes of the fields of the header.
abbrev pub head_widths : List ℕ
head_widths = 4 ∷ 4 ∷ 2 ∷ 4 ∷ 4 ∷ 4 ∷ 8 ∷ 4 ∷ 2 ∷ []

abbrev pub head_values : RpcPkg → List ℕ
head_values pkg =
    pkg.magic ∷ pkg.command ∷ pkg.pkg_type ∷ pkg.result ∷ pkg.crc32 ∷ pkg.sequence ∷ pkg.req_id
    ∷ pkg.body_size ∷ pkg.ext_size ∷ []

-- Fields in little-endian bytes, one behind the other.
unfoldable pub put_fields : List ℕ → List ℕ → List ℕ
put_fields [] values = []
put_fields (width ∷ widths) [] = []
put_fields (width ∷ widths) (value ∷ values) = le_bytes width value ++ put_fields widths values

unfoldable pub get_fields : List ℕ → List ℕ → List ℕ
get_fields [] bytes = []
get_fields (width ∷ widths) bytes =
    le_value (take width bytes) ∷ get_fields widths (drop width bytes)

abbrev pub nth : ℕ → List ℕ → ℕ
nth i [] = 0
nth zero (x ∷ xs) = x
nth (suc i) (x ∷ xs) = nth i xs

-- The bytes of a packet as its fields stand.
unfoldable pub wire : RpcPkg → List ℕ
wire pkg = put_fields head_widths (head_values pkg) ++ (pkg.ext ++ pkg.body)

-- The size of the static `send_buf` once a packet is to be put there.
unfoldable pub grow_buf : ℕ → ℕ → ℕ
grow_buf send_buf_size pkg_size =
    if ltb send_buf_size pkg_size then (pkg_size * 2) % 2 ^ 32 else send_buf_size

-- `rpc_pack`: the bytes, or `none` for -1, and the size of the static buffer. The sizes say how many
-- bytes are behind the pointers.
unfoldable pub rpc_pack : RpcPkg → ℕ → Option (List ℕ) × ℕ
rpc_pack pkg send_buf_size =
    if ltb max_body_size pkg.body_size
    then (none, send_buf_size)
    else let pkg_size = (head_size + pkg.ext_size + pkg.body_size) % 2 ^ 32 in
      let sent = record pkg {
        magic = rpc_pkg_magic;
        crc32 = 0;
        ext = take pkg.ext_size pkg.ext;
        body = take pkg.body_size pkg.body;
      } in
      let crc32 = generate_crc32c (take pkg_size (wire sent)) in
      (some (wire (record sent { crc32 = crc32 })), grow_buf send_buf_size pkg_size)

-- What a decoder returns: 0, a negative number, or the size of the packet.
pub data Decoded : Type 0 where
  incomplete : Decoded
  bad : Decoded
  complete : ℕ → Decoded

-- A 32-bit size returned as an `int`.
unfoldable pub as_int : ℕ → Decoded
as_int zero = incomplete
as_int (suc n) = if ltb (suc n) (2 ^ 31) then complete (suc n) else bad

-- The bytes with the four bytes of the checksum set to 0.
unfoldable pub clear_crc : List ℕ → List ℕ
clear_crc bytes = take 14 bytes ++ (0 ∷ 0 ∷ 0 ∷ 0 ∷ drop 18 bytes)

-- `rpc_decode`, where `max` is the number of bytes.
unfoldable pub rpc_decode : List ℕ → Decoded
rpc_decode bytes =
    let head = get_fields head_widths bytes in
    let pkg_size = (head_size + nth 8 head + nth 7 head) % 2 ^ 32 in
    if ltb (length bytes) head_size
    then incomplete
    else if not (nth 0 head == rpc_pkg_magic)
    then bad
    else if ltb (length bytes) pkg_size
    then incomplete
    else if not (nth 4 head == generate_crc32c (take pkg_size (clear_crc bytes)))
    then bad
    else as_int pkg_size

-- `on_recv_pkg` of the server: the packet that its handler gets.
unfoldable pub recv_pkg : List ℕ → RpcPkg
recv_pkg bytes =
    let head = get_fields head_widths bytes in
    let behind = drop head_size bytes in
    record {
      magic = nth 0 head;
      command = nth 1 head;
      pkg_type = nth 2 head;
      result = nth 3 head;
      crc32 = nth 4 head;
      sequence = nth 5 head;
      req_id = nth 6 head;
      body_size = nth 7 head;
      ext_size = nth 8 head;
      ext = take (nth 8 head) behind;
      body = take (nth 7 head) (drop (nth 8 head) behind);
    }
