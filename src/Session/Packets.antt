-- ===== src/Session/Packets.antt =====
-- The packets of utils/src/ut_rpc.c over a stream session of network/src/nw_ses.c.
use viabtc_future.Prelude.{
  ℕ, ◌≤◌, ◌≡◌, refl, ap, sym, ◌∙◌, true, none, some, List, [], ◌∷◌, ◌++◌, All, map, length, arith,
}
use mathlib.Core.List.{append-nil}
use mathlib.Core.Path.{subst}
use viabtc_future.Rpc.{RpcPkg, rpc_decode, wire}
use viabtc_future.Rpc.RoundTrip.{IsPacket, sealed, rpc_decode-wire, rpc_decode-part, length-wire}
use viabtc_future.Session.{Answer, running, Session, take_buf, on_can_read}
use viabtc_future.Session.Cuts.{concat, IsFrame}
use viabtc_future.Session.Reads.{Brings, Streams, Buffered, on_can_read-Streams}

-- The packets that rpc_pack makes are packets of a stream, for the decoder of ut_rpc.c.
wire-IsFrame :
    (size : ℕ) (pkg : RpcPkg)
    → IsPacket pkg
    → length (wire (sealed pkg)) ≤ size
    → IsFrame rpc_decode size (wire (sealed pkg))
wire-IsFrame size pkg p fits = record {
  some_bytes = omega (arith, length-wire (sealed pkg));
  fits = fits;
  whole = rpc_decode-wire pkg p;
  part = rpc_decode-part pkg p;
}

abbrev pub packets : List RpcPkg → List (List ℕ)
packets pkgs = map (λ pkg. wire (sealed pkg)) pkgs

pub wires-IsFrame :
    (size : ℕ) (pkgs : List RpcPkg)
    → All (λ pkg. IsPacket pkg × (length (wire (sealed pkg)) ≤ size)) pkgs
    → All (IsFrame rpc_decode size) (packets pkgs)
wires-IsFrame size [] h = tt
wires-IsFrame size (pkg ∷ pkgs) h = (wire-IsFrame size pkg h.0.0 h.0.1, wires-IsFrame size pkgs h.1)

pub All-kept : (pkgs : List (List ℕ)) → All (λ pkg. true ≡ true) pkgs
All-kept [] = tt
All-kept (pkg ∷ pkgs) = (refl, All-kept pkgs)

-- A session whose handlers keep it, and which has read nothing yet, gets the packets that its peer
-- has packed: when the socket has brought all of their bytes, however it cuts them, the handler has
-- got exactly these packets, in their order, and the session goes on. Each
-- packet fits in a buffer.
pub on_can_read-packets :
    (answers : List Answer) (pkgs : List RpcPkg) (ses : Session)
    → ses.state ≡ running
    → ses.read_buf ≡ none
    → All (λ pkg. IsPacket pkg × (length (wire (sealed pkg)) ≤ ses.pool.size)) pkgs
    → Brings rpc_decode
        (λ pkg. true)
        answers
        (take_buf ses).0
        ses.received
        (concat (packets pkgs))
        []
    → (ses' : Session) × (on_can_read rpc_decode (λ pkg. true) answers ses ≡ some ses')
      × (ses'.state ≡ running)
      × (ses'.received ≡ ses.received ++ packets pkgs)
on_can_read-packets answers pkgs ses going nothing h brings =
    let start : Streams ses.pool.size (packets pkgs) (concat (packets pkgs)) ses = record {
      going = going;
      sized = refl;
      buffered =
          subst (Buffered ses.pool.size (packets pkgs) (concat (packets pkgs))) (sym nothing) refl;
    } in
    let (ses', done, rest, read, parts, all, streams, finished) =
      on_can_read-Streams rpc_decode (λ pkg. true) ses.pool.size answers (packets pkgs)
        (concat (packets pkgs)) [] ses start (wires-IsFrame ses.pool.size pkgs h)
        (All-kept (packets pkgs)) brings in
    (
      ses',
      read,
      streams.going,
      all
          ∙ ap (λ xs. ses.received ++ xs)
              (sym (append-nil done) ∙ sym (ap (λ xs. done ++ xs) (finished refl)) ∙ sym parts),
    )
