-- ===== src/Rpc/RoundTrip.antt =====
-- What `rpc_pack` makes of a packet (utils/src/ut_rpc.c), and what `rpc_decode` makes of its bytes.
use viabtc_future.Prelude.{
  ℕ, zero, suc, ◌+◌, ◌%◌, ◌^◌, ◌≤◌, ◌<◌, ◌≡◌, refl, ap, sym, ◌∙◌, some, List, [], ◌∷◌, ◌++◌, All,
  length, length-append, take, drop, take_all, length-take_le, length-drop, arith, ltb, ==_iff,
  false, true, Bool-cases, inl, inr,
}
use mathlib.Core.List.{append_assoc, append-nil}
use viabtc_future.Pack.{le_bytes}
use viabtc_future.Pack.Words.{IsByte, le_bytes-IsByte, take-append_length, drop-append_length}
use viabtc_future.Crc32.{generate_crc32c}
use viabtc_future.Crc32.Detects.{generate_crc32c-lt}
use viabtc_future.Rpc.{
  RpcPkg, rpc_pkg_magic, head_size, max_body_size, head_widths, head_values, put_fields, get_fields,
  wire, rpc_pack, grow_buf, incomplete, complete, as_int, clear_crc, rpc_decode, recv_pkg,
}
use viabtc_future.Rpc.Fields.{Fit, get_fields-put_fields, get_fields-take}

-- A packet that a client may send.
pub record IsPacket (pkg : RpcPkg) : Type 0 where
  pub command : pkg.command < 2 ^ 32
  pub pkg_type : pkg.pkg_type < 2 ^ 16
  pub result : pkg.result < 2 ^ 32
  pub sequence : pkg.sequence < 2 ^ 32
  pub req_id : pkg.req_id < 2 ^ 64
  pub ext_size : pkg.ext_size ≡ length pkg.ext
  pub body_size : pkg.body_size ≡ length pkg.body
  pub ext_fits : pkg.ext_size < 2 ^ 16
  pub body_fits : pkg.body_size ≤ max_body_size
  pub ext_bytes : All IsByte pkg.ext
  pub body_bytes : All IsByte pkg.body

-- The packet with an empty checksum, and with the one it is sent with.
abbrev pub blank : RpcPkg → RpcPkg
blank pkg = record pkg { magic = rpc_pkg_magic; crc32 = 0 }

abbrev pub sealed : RpcPkg → RpcPkg
sealed pkg = record pkg { magic = rpc_pkg_magic; crc32 = generate_crc32c (wire (blank pkg)) }

All-append : (xs ys : List ℕ) → All IsByte xs → All IsByte ys → All IsByte (xs ++ ys)
All-append [] ys h j = j
All-append (x ∷ xs) ys h j = (h.0, All-append xs ys h.1 j)

put_fields-IsByte : (widths values : List ℕ) → All IsByte (put_fields widths values)
unfolding put_fields
put_fields-IsByte [] values = tt
put_fields-IsByte (width ∷ widths) [] = tt
put_fields-IsByte (width ∷ widths) (value ∷ values) =
    All-append (le_bytes width value) (put_fields widths values) (le_bytes-IsByte width value)
      (put_fields-IsByte widths values)

wire-IsByte : (pkg : RpcPkg) → All IsByte pkg.ext → All IsByte pkg.body → All IsByte (wire pkg)
unfolding wire
wire-IsByte pkg h j =
    All-append (put_fields head_widths (head_values pkg)) (pkg.ext ++ pkg.body)
      (put_fields-IsByte head_widths (head_values pkg)) (All-append pkg.ext pkg.body h j)

-- Of the checksum, only its four bytes are cleared.
clear_crc-wire :
    (pkg : RpcPkg) (rest : List ℕ)
    → clear_crc (wire pkg ++ rest) ≡ wire (record pkg { crc32 = 0 }) ++ rest
unfolding clear_crc wire put_fields le_bytes
clear_crc-wire pkg rest = refl

pub length-wire : (pkg : RpcPkg) → length (wire pkg) ≡ 36 + length pkg.ext + length pkg.body
unfolding wire put_fields le_bytes
length-wire pkg = omega (arith, length-append pkg.ext pkg.body)

as_int-complete : (n : ℕ) → 0 < n → n < 2 ^ 31 → as_int n ≡ complete n
unfolding as_int
as_int-complete zero h j = absurd (omega arith)
as_int-complete (suc n) h j = ground arith

behind_head :
    (pkg : RpcPkg) (rest : List ℕ) → drop 36 (wire pkg ++ rest) ≡ pkg.ext ++ (pkg.body ++ rest)
unfolding wire put_fields le_bytes
behind_head pkg rest = append_assoc pkg.ext pkg.body rest

-- A packet is decoded whose fields fit and whose sizes add up to its length, if only modulo 2 ^ 32.
module _ (pkg : RpcPkg) (fit : Fit head_widths (head_values (sealed pkg))) where
  head :
      (rest : List ℕ)
      → get_fields head_widths (wire (sealed pkg) ++ rest) ≡ head_values (sealed pkg)
  unfolding wire
  head rest =
      let fields = put_fields head_widths (head_values (sealed pkg)) in
      rw (append_assoc fields (pkg.ext ++ pkg.body) rest) (
        get_fields-put_fields head_widths (head_values (sealed pkg)) ((pkg.ext ++ pkg.body) ++ rest)
          fit)

  decode_sealed :
      (rest : List ℕ)
      → (head_size + pkg.ext_size + pkg.body_size) % 2 ^ 32 ≡ length (wire (sealed pkg))
      → length (wire (sealed pkg)) < 2 ^ 31
      → rpc_decode (wire (sealed pkg) ++ rest) ≡ complete (length (wire (sealed pkg)))
  unfolding rpc_decode
  decode_sealed rest size fits =
      let n = length (wire (sealed pkg)) in
      let long = length-wire (sealed pkg) in
      let all = length-append (wire (sealed pkg)) rest in
      let some_head : ltb (length (wire (sealed pkg) ++ rest)) 36 ≡ false =
        ground (arith, all, long) in
      let there : ltb (length (wire (sealed pkg) ++ rest)) n ≡ false = ground (arith, all, long) in
      let crc : take n (clear_crc (wire (sealed pkg) ++ rest)) ≡ wire (blank pkg) =
        ap (take n) (clear_crc-wire (sealed pkg) rest)
        ∙ take-append_length n (wire (blank pkg)) rest
            (omega (arith, long, length-wire (blank pkg))) in
      rw (head rest, some_head, size, there, crc)
        (ground (
          arith,
          ==_iff (generate_crc32c (wire (blank pkg))) (generate_crc32c (wire (blank pkg))),
          as_int-complete n,
          long,
        ))

module _ (pkg : RpcPkg) (p : IsPacket pkg) where
  sealed-Fit : Fit head_widths (head_values (sealed pkg))
  sealed-Fit = omega (
    arith,
    generate_crc32c-lt (wire (blank pkg)) (wire-IsByte (blank pkg) p.ext_bytes p.body_bytes),
  )

  size_fits :
      (head_size + pkg.ext_size + pkg.body_size) % 2 ^ 32 ≡ 36 + length pkg.ext + length pkg.body
  size_fits = omega (arith, p.ext_size, p.body_size, p.ext_fits, p.body_fits)

  pub rpc_pack_lem :
      (send_buf_size : ℕ)
      → rpc_pack pkg send_buf_size
        ≡ (some (wire (sealed pkg)), grow_buf send_buf_size (length (wire (sealed pkg))))
  unfolding rpc_pack
  rpc_pack_lem send_buf_size =
      let small : ltb max_body_size pkg.body_size ≡ false = ground (arith, p.body_fits) in
      let ext : take pkg.ext_size pkg.ext ≡ pkg.ext =
        take_all pkg.ext_size pkg.ext (omega (arith, p.ext_size)) in
      let body : take pkg.body_size pkg.body ≡ pkg.body =
        take_all pkg.body_size pkg.body (omega (arith, p.body_size)) in
      let size : (36 + pkg.ext_size + pkg.body_size) % 2 ^ 32 ≡ length (wire (sealed pkg)) =
        size_fits ∙ sym (length-wire (sealed pkg)) in
      let all : take (length (wire (sealed pkg))) (wire (blank pkg)) ≡ wire (blank pkg) =
        take_all (length (wire (sealed pkg))) (wire (blank pkg))
          (omega (arith, length-wire (sealed pkg), length-wire (blank pkg))) in
      rw (small, ext, body, size, all)

  pub rpc_decode-wire :
      (rest : List ℕ)
      → rpc_decode (wire (sealed pkg) ++ rest) ≡ complete (length (wire (sealed pkg)))
  rpc_decode-wire rest =
      let long = length-wire (sealed pkg) in
      decode_sealed pkg sealed-Fit rest (size_fits ∙ sym long)
        (omega (arith, long, p.ext_size, p.body_size, p.ext_fits, p.body_fits))

  pub rpc_decode-part :
      (part rest : List ℕ)
      → part ++ rest ≡ wire (sealed pkg)
      → 0 < length rest
      → rpc_decode part ≡ incomplete
  unfolding rpc_decode
  rpc_decode-part part rest whole more = elim (Bool-cases (ltb (length part) 36)) [
    | inl short ↦ rw short
    | inr long ↦
        let fields : get_fields head_widths part ≡ head_values (sealed pkg) =
          sym (get_fields-take head_widths part rest (ground (arith, long)))
          ∙ ap (get_fields head_widths) (whole ∙ sym (append-nil (wire (sealed pkg))))
          ∙ head pkg sealed-Fit [] in
        let size : (36 + pkg.ext_size + pkg.body_size) % 2 ^ 32 ≡ length part + length rest =
          size_fits
          ∙ sym (length-wire (sealed pkg))
          ∙ sym (ap length whole)
          ∙ length-append part rest in
        let missing : ltb (length part) (length part + length rest) ≡ true = ground arith in
        rw (fields, long, size, missing)
  ]

  -- The handler of the server gets the packet with its checksum.
  pub recv_pkg-wire : (rest : List ℕ) → recv_pkg (wire (sealed pkg) ++ rest) ≡ sealed pkg
  unfolding recv_pkg
  recv_pkg-wire rest =
      let behind : drop 36 (wire (sealed pkg) ++ rest) ≡ pkg.ext ++ (pkg.body ++ rest) =
        behind_head (sealed pkg) rest in
      rw (
        head pkg sealed-Fit rest,
        behind,
        take-append_length pkg.ext_size pkg.ext (pkg.body ++ rest) (sym p.ext_size),
        drop-append_length pkg.ext_size pkg.ext (pkg.body ++ rest) (sym p.ext_size),
        take-append_length pkg.body_size pkg.body rest (sym p.body_size),
      )

  -- A packet whose fields and parts fit is packed, with its magic number and its checksum, into bytes
  -- for which the static buffer has room. Whatever follows them, they are decoded as one packet of
  -- their length, and the server's handler gets that packet.
  pub rpc_pack-rpc_decode :
      (send_buf_size : ℕ) (rest : List ℕ)
      → (bytes : List ℕ) × ((rpc_pack pkg send_buf_size).0 ≡ some bytes)
        × (length bytes ≤ (rpc_pack pkg send_buf_size).1)
        × (rpc_decode (bytes ++ rest) ≡ complete (length bytes))
        × (recv_pkg (bytes ++ rest) ≡ sealed pkg)
  unfolding grow_buf
  rpc_pack-rpc_decode send_buf_size rest =
      let packed = rpc_pack_lem send_buf_size in
      (
        wire (sealed pkg),
        ap (λ r. r.0) packed,
        ground (
          arith,
          ap (λ r. r.1) packed,
          length-wire (sealed pkg),
          p.ext_size,
          p.body_size,
          p.ext_fits,
          p.body_fits,
        ),
        rpc_decode-wire rest,
        recv_pkg-wire rest,
      )

-- A packet whose sizes add up to 2 ^ 32 more than its length, and whose fields fit, is decoded as one
-- of its length, and the handler of the server gets a body of fewer bytes than its size says.
pub rpc_decode_overruns :
    (pkg : RpcPkg)
    → Fit head_widths (head_values (sealed pkg))
    → head_size + pkg.ext_size + pkg.body_size ≡ 2 ^ 32 + length (wire (sealed pkg))
    → length (wire (sealed pkg)) < 2 ^ 31
    → (rpc_decode (wire (sealed pkg)) ≡ complete (length (wire (sealed pkg))))
      × (length (recv_pkg (wire (sealed pkg))).body < (recv_pkg (wire (sealed pkg))).body_size)
unfolding recv_pkg
rpc_decode_overruns pkg fit sizes small =
    let bytes = wire (sealed pkg) in
    let whole = sym (append-nil bytes) in
    let fields : get_fields head_widths bytes ≡ head_values (sealed pkg) =
      ap (get_fields head_widths) whole ∙ head pkg fit [] in
    (
      ap rpc_decode whole ∙ decode_sealed pkg fit [] (omega (arith, sizes, small)) small,
      rw fields (
          omega (
            arith,
            sizes,
            small,
            fit,
            length-take_le pkg.body_size (drop pkg.ext_size (drop 36 bytes)),
            length-drop pkg.ext_size (drop 36 bytes),
            length-drop 36 bytes,
          )),
    )
