-- ===== src/Session/Sends/Drained.antt =====
-- A session that can be written (`on_can_write` of network/src/nw_ses.c).
use viabtc_future.Prelude.{
  ℕ, zero, suc, ◌+◌, ◌-◌, ◌≤◌, ◌≡◌, refl, ap, sym, ◌∙◌, Bool, true, List, [], ◌∷◌, ◌++◌, arith,
  length, length-drop, take, drop, inl, inr, Bool-cases, ltb, ◌==◌, not, ◌&&◌,
}
use mathlib.Core.Path.{subst}
use mathlib.Core.List.{append_assoc}
use viabtc_future.Buffer.{Buf, Pool, BufList, nw_buf_size, nw_buf_free, nw_buf_list_shift}
use viabtc_future.Buffer.Fifo.{IsBuf, unread, content, take-drop_append}
use viabtc_future.Buffer.Ends.{shift-Shifts}
use viabtc_future.Session.Sends.{Taken, Sender, nw_write_stream, write_bufs, on_can_write}
use viabtc_future.Session.Sends.Stream.{
  Going, Delivers, drop_add, take_past, nwrite_le, close-Stopped, then_branch, else_branch,
}

-- A buffer that is written in part.
write_part :
    (n : ℕ) (buf : Buf)
    → IsBuf buf
    → n ≤ length (unread buf)
    → IsBuf (record buf { rpos = buf.rpos + n })
      × (unread (record buf { rpos = buf.rpos + n }) ≡ drop n (unread buf))
write_part n buf h enough = (
  record {
    read = omega (arith, enough, length-drop buf.rpos buf.bytes, h.filled, h.read);
    fits = h.fits;
    filled = h.filled;
  },
  drop_add buf.rpos n (buf.rpos + n) buf.bytes refl,
)

write_bufs-Delivers :
    (fuel : ℕ) (answers : List Taken) (is_open writing : Bool) (pool : Pool) (count limit : ℕ)
    (bufs : List Buf) (sent all : List ℕ)
    → let list : BufList = record { pool = pool; count = count; limit = limit; bufs = bufs } in
      let ses : Sender = record {
        is_open = is_open;
        writing = writing;
        write_buf = list;
        sent = sent;
      } in
      Going all ses → fuel ≡ count → Delivers all (write_bufs fuel answers ses)
unfolding write_bufs nw_buf_list_shift
write_bufs-Delivers zero answers o w pool count limit bufs sent all go same = inl go
write_bufs-Delivers (suc fuel) answers o w pool count limit [] sent all go same = inl go
write_bufs-Delivers (suc fuel) answers o w pool count limit (buf ∷ bufs) sent all go same =
    let list : BufList = record { pool = pool; count = count; limit = limit; bufs = buf ∷ bufs } in
    let bytes = unread buf in
    let written = nw_write_stream answers bytes in
    let n = written.nwrite in
    let le = nwrite_le answers bytes in
    let ses' : Sender = record {
      is_open = o;
      writing = w;
      write_buf = list;
      sent = sent ++ take n bytes;
    } in
    let size : nw_buf_size buf ≡ length bytes =
      omega (arith, length-drop buf.rpos buf.bytes, go.good.bufs.0.filled) in
    let waits : w ≡ true = ground (arith, go.watched, same) in
    let split : (sent ++ take n bytes) ++ (drop n bytes ++ content bufs) ≡ all =
      append_assoc sent (take n bytes) (drop n bytes ++ content bufs)
      ∙ ap (◌++◌ sent) (
          sym (append_assoc (take n bytes) (drop n bytes) (content bufs))
          ∙ ap (λ xs. xs ++ content bufs) (take-drop_append n bytes))
      ∙ go.kept in
    elim (Bool-cases (ltb n (nw_buf_size buf))) [
      | inl part ↦ elim (Bool-cases written.blocked) [
        | inl blocked ↦
            let (good, left) = write_part n buf go.good.bufs.0 le in
            rw (part, blocked)
              (inl (record {
                is_open = go.is_open;
                good = record {
                  bufs = (good, go.good.bufs.1);
                  counted = go.good.counted;
                  sized = go.good.sized;
                  limited = go.good.limited;
                };
                kept = ap (λ xs. ses'.sent ++ (xs ++ content bufs)) left ∙ split;
                watched = go.watched;
              }))
        | inr broken ↦
            rw (part, broken) (inr (close-Stopped ses' all (drop n bytes ++ content bufs) split))
      ]
      | inr whole ↦
          let all_taken : take n bytes ≡ bytes = take_past n bytes (ground (arith, whole, size)) in
          rw whole (
            write_bufs-Delivers fuel written.answers o w (nw_buf_free buf pool) (count - 1) limit
              bufs (sent ++ take n bytes) all
              (record {
                is_open = go.is_open;
                good = (shift-Shifts pool count limit (buf ∷ bufs) go.good).0;
                kept =
                    ap (λ xs. (sent ++ xs) ++ content bufs) all_taken
                    ∙ append_assoc sent bytes (content bufs)
                    ∙ go.kept;
                watched = inl waits;
              })
              (omega (arith, same)))
    ]

pub can_write-Delivers :
    (answers : List Taken) (all : List ℕ) (ses : Sender)
    → Delivers all ses
    → Delivers all (on_can_write answers ses)
unfolding on_can_write
can_write-Delivers answers all ses (inr stop) =
    subst (Delivers all) (sym (then_branch (not ses.is_open) _ _ (ground (arith, stop.closed))))
      (inr stop)
can_write-Delivers answers all ses (inl go) =
    let list = ses.write_buf in
    let after = write_bufs list.count answers ses in
    let d =
      write_bufs-Delivers list.count answers ses.is_open ses.writing list.pool list.count list.limit
        list.bufs ses.sent all go refl in
    subst (Delivers all) (sym (else_branch (not ses.is_open) _ _ (ground (arith, go.is_open))))
      (elim (Bool-cases (after.is_open && (after.write_buf.count == 0))) [
        | inl idle ↦ subst (Delivers all) (sym (then_branch _ _ _ idle)) (elim d [
          | inl g ↦ inl (record {
            is_open = g.is_open;
            good = g.good;
            kept = g.kept;
            watched = inr (ground (arith, idle));
          })
          | inr s ↦ inr (record { closed = s.closed; lost = s.lost; part = s.part })
        ])
        | inr busy ↦ subst (Delivers all) (sym (else_branch _ _ _ busy)) d
      ])
