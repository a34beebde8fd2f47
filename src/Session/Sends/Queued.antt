-- ===== src/Session/Sends/Queued.antt =====
-- Bytes that a session is given to send (`nw_ses_send` of network/src/nw_ses.c).
use viabtc_future.Prelude.{
  ℕ, ◌≡◌, refl, ap, sym, ◌∙◌, Bool, true, false, some, List, [], ◌++◌, arith, length, take, drop,
  inl, inr, Bool-cases, ltb, not,
}
use mathlib.Core.Path.{subst}
use mathlib.Core.List.{append_assoc, append-nil}
use viabtc_future.Buffer.Fifo.{content, take-drop_append}
use viabtc_future.Session.Sends.{
  Taken, Sender, nw_write_stream, nw_ses_close, write_now, nw_ses_send,
}
use viabtc_future.Session.Sends.Stream.{
  Going, Delivers, take_past, no_rest, close-Stopped, queue_bytes-Delivers, then_branch,
  else_branch,
}

nothing_waits :
    (all : List ℕ) (ses : Sender)
    → Going all ses
    → ses.write_buf.count ≡ 0
    → (ses.sent ≡ all) × (content ses.write_buf.bufs ≡ [])
nothing_waits all ses go idle =
    let bufs = ses.write_buf.bufs in
    let none_there : bufs ≡ [] = no_rest [] bufs (omega (arith, go.good.counted, idle)) in
    (
      sym (append-nil ses.sent) ∙ ap (λ bs. ses.sent ++ content bs) (sym none_there) ∙ go.kept,
      ap content none_there,
    )

-- No buffer waits: the socket gets the bytes, and the buffers what it does not take.
write_now-Delivers :
    (answers : List Taken) (bytes all : List ℕ) (ses : Sender)
    → Going all ses
    → ses.write_buf.count ≡ 0
    → (ret : Bool) × (ses' : Sender) × (write_now answers bytes ses ≡ some (ret, ses'))
      × Delivers (all ++ bytes) ses'
unfolding write_now
write_now-Delivers answers bytes all ses go idle =
    let w = nw_write_stream answers bytes in
    let n = w.nwrite in
    let ses' = record ses { sent = ses.sent ++ take n bytes } in
    let list = ses.write_buf in
    let (sent_all, empty) = nothing_waits all ses go idle in
    let taken : ses'.sent ≡ all ++ take n bytes = ap (λ xs. xs ++ take n bytes) sent_all in
    let kept : ses'.sent ++ content list.bufs ≡ all ++ take n bytes =
      ap (λ bs. ses'.sent ++ bs) empty ∙ append-nil ses'.sent ∙ taken in
    let rejoin : (all ++ take n bytes) ++ drop n bytes ≡ all ++ bytes =
      append_assoc all (take n bytes) (drop n bytes) ∙ ap (◌++◌ all) (take-drop_append n bytes) in
    elim (Bool-cases (ltb n (length bytes))) [
      | inl part ↦ elim (Bool-cases w.blocked) [
        | inl blocked ↦
            let (ret, after, done, d) =
              queue_bytes-Delivers (drop n bytes) (all ++ take n bytes) true ses' go.is_open go.good
                kept refl in
            (
              ret,
              after,
              then_branch _ _ _ part ∙ then_branch w.blocked _ _ blocked ∙ done,
              subst (λ b. Delivers b after) rejoin d,
            )
        | inr broken ↦ (
          false,
          nw_ses_close ses',
          then_branch _ _ _ part ∙ else_branch w.blocked _ _ broken,
          inr (
              close-Stopped ses' (all ++ bytes) (drop n bytes)
                (ap (λ xs. xs ++ drop n bytes) taken ∙ rejoin)),
        )
      ]
      | inr whole ↦ (
        true,
        ses',
        else_branch _ _ _ whole,
        inl (record {
          is_open = go.is_open;
          good = go.good;
          kept = kept ∙ ap (◌++◌ all) (take_past n bytes (ground (arith, whole)));
          watched = go.watched;
        }),
      )
    ]

pub send-Delivers :
    (answers : List Taken) (bytes all : List ℕ) (ses : Sender)
    → Delivers all ses
    → (ret : Bool) × (ses' : Sender) × (nw_ses_send answers bytes ses ≡ some (ret, ses'))
      × Delivers (all ++ bytes) ses'
unfolding nw_ses_send
send-Delivers answers bytes all ses (inr stop) = (
  false,
  ses,
  rw (nw_ses_send, stop.closed) refl,
  inr (record {
    closed = stop.closed;
    lost = stop.lost ++ bytes;
    part = sym (append_assoc ses.sent stop.lost bytes) ∙ ap (λ xs. xs ++ bytes) stop.part;
  }),
)
send-Delivers answers bytes all ses (inl go) =
    let list = ses.write_buf in
    let is_open : not ses.is_open ≡ false = ground (arith, go.is_open) in
    elim (Bool-cases (ltb 0 list.count)) [
      | inl waits ↦
          let (ret, after, done, d) =
            queue_bytes-Delivers bytes all ses.writing ses go.is_open go.good go.kept
              (ground (arith, go.watched, waits)) in
          (
            ret,
            after,
            else_branch (not ses.is_open) _ _ is_open
                ∙ then_branch (ltb 0 list.count) _ _ waits
                ∙ done,
            d,
          )
      | inr idle ↦
          let none_there : list.count ≡ 0 = ground (arith, idle) in
          let (ret, after, done, d) = write_now-Delivers answers bytes all ses go none_there in
          (
            ret,
            after,
            else_branch (not ses.is_open) _ _ is_open
                ∙ else_branch (ltb 0 list.count) _ _ idle
                ∙ done,
            d,
          )
    ]
