-- ===== src/Session/Writing.antt =====
-- onWritable of Http2Session (src/http2_session.cpp): what the transport takes of the bytes that wait.
use chttp.Prelude.{
  ℕ, ◌≤◌, ◌==◌, ◌≡◌, ◌⊎◌, ◌∙◌, sym, refl, ap, List, [], ◌∷◌, ◌++◌, append_assoc, true, false, not,
  inl, inr, Bool-cases, length, leb, take, drop, take-append-drop, drop-add, length-drop, arith,
}
use chttp.Protocol.Sound.Outcome.{split_if}
use chttp.Session.{OutboundChunk, Session, is_healthy, handle_transport_failure, fail_all_streams}
use chttp.Session.Requests.{
  Write, write_blocked, write_failed, wrote, finished, drop_finished, taken, advance_first,
  write_loop, on_writable,
}

-- The bytes that wait to be written, in their order.
unfoldable pub pending : List OutboundChunk → List ℕ
pending [] = []
pending (chunk ∷ outbound) = drop chunk.offset chunk.data_left ++ pending outbound

no_bytes : (xs : List ℕ) → length xs ≡ 0 → xs ≡ []
no_bytes [] e = refl
no_bytes (x ∷ xs) e = absurd (omega arith)

drop_past : (n : ℕ) (xs : List ℕ) → length xs ≤ n → drop n xs ≡ []
drop_past n xs le = no_bytes (drop n xs) (omega (arith, length-drop n xs))

pending-drop_finished :
    (outbound : List OutboundChunk) → pending (drop_finished outbound) ≡ pending outbound
unfolding pending drop_finished finished
pending-drop_finished [] = refl
pending-drop_finished (chunk ∷ outbound) =
    elim (Bool-cases (leb (length chunk.data_left) chunk.offset)) [
      | inl t ↦
          let nothing = drop_past chunk.offset chunk.data_left (ground arith) in
          rw (t, nothing) (pending-drop_finished outbound)
      | inr f ↦ rw f refl
    ]

pending-advance_first :
    (n : ℕ) (outbound : List OutboundChunk)
    → taken n outbound ++ pending (advance_first n outbound) ≡ pending outbound
unfolding pending
pending-advance_first n [] = refl
pending-advance_first n (chunk ∷ outbound) = rw (drop-add chunk.offset n chunk.data_left) (
    sym (append_assoc (take n (drop chunk.offset chunk.data_left)) _ (pending outbound))
    ∙ ap (λ bytes. bytes ++ pending outbound)
        (take-append-drop n (drop chunk.offset chunk.data_left)))

-- The bytes that were taken are the first of those that waited; what is left waits still, or the
-- transport has failed and the session with it.
pub record Writes (before : List OutboundChunk) (out : List ℕ × Session) : Type 0 where
  pub left : List ℕ
  pub in_order : out.0 ++ left ≡ pending before
  pub waits : (pending (out.1).outbound ≡ left) ⊎ ((out.1).healthy ≡ false)

handle_transport_failure-healthy :
    (s : Session) → s.healthy ≡ true → (handle_transport_failure s).1.healthy ≡ false
unfolding handle_transport_failure fail_all_streams
handle_transport_failure-healthy s e = rw e refl

nothing_written :
    (s : Session) → Writes s.outbound ([], record s { outbound = drop_finished s.outbound })
nothing_written s = record {
  left = pending s.outbound;
  in_order = refl;
  waits = inl (pending-drop_finished s.outbound);
}

write_loop-Writes :
    (writes : List Write) (s : Session) → s.healthy ≡ true → Writes s.outbound (write_loop s writes)
unfolding write_loop
write_loop-Writes [] s healthy = nothing_written s
write_loop-Writes (w ∷ writes) s healthy =
    let chunks = drop_finished s.outbound in
    split_if (Writes s.outbound) (length chunks == 0) (λ _. nothing_written s)
      (λ _.
        by_result w
          (λ n. write_loop-Writes writes (record s { outbound = advance_first n chunks }) healthy))
  where
    by_result :
        (w : Write)
        → ((n : ℕ)
            → Writes (advance_first n (drop_finished s.outbound)) (
                write_loop
                  (record s { outbound = advance_first n (drop_finished s.outbound) })
                  writes))
        → Writes s.outbound (elim w [
          | write_blocked ↦ ([], record s { outbound = drop_finished s.outbound })
          | write_failed ↦
              ([], (handle_transport_failure (record s { outbound = drop_finished s.outbound })).1)
          | wrote n ↦ (
            taken n (drop_finished s.outbound)
                ++ (write_loop
                    (record s { outbound = advance_first n (drop_finished s.outbound) })
                    writes).0,
            (write_loop
                (record s { outbound = advance_first n (drop_finished s.outbound) })
                writes).1,
          )
        ])
    by_result write_blocked more = nothing_written s
    by_result write_failed more = record {
      left = pending s.outbound;
      in_order = refl;
      waits = inr (
          handle_transport_failure-healthy (record s { outbound = drop_finished s.outbound })
            healthy);
    }
    by_result (wrote n) more =
        let chunks = drop_finished s.outbound in
        let rest = more n in
        record {
          left = rest.left;
          in_order =
              append_assoc (taken n chunks) _ rest.left
              ∙ ap (λ bytes. taken n chunks ++ bytes) rest.in_order
              ∙ pending-advance_first n chunks
              ∙ pending-drop_finished s.outbound;
          waits = rest.waits;
        }

-- Whatever the transport's writes give, the bytes that onWritable of a healthy session hands over are
-- the first of those that wait, in their order. Those left wait still, unless a write failed: then
-- the session is not healthy.
pub on_writable-Writes :
    (s : Session) (writes : List Write)
    → is_healthy s ≡ true
    → Writes s.outbound (on_writable s writes)
unfolding on_writable is_healthy
on_writable-Writes s writes healthy =
    split_if (Writes s.outbound) (not (is_healthy s)) (λ f. absurd (ground arith))
      (λ _. write_loop-Writes writes s (ground arith))
