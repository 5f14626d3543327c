-- ===== src/Session/Submitting.antt =====
-- The requests that submit of Http2Session answers (src/http2_session.cpp), the submitted one
-- included.
use chttp.Prelude.{
  ℕ, ◌+◌, ◌≤◌, ◌==◌, ◌≡◌, ◌≢◌, ◌∙◌, sym, refl, subst, List, [], ◌∷◌, some, Bool, true, false, not,
  ◌&&◌, ◌||◌, inl, inr, Bool-cases, if◌then◌else◌, All, arith,
}
use chttp.Prelude.Map.{Map, assign}
use chttp.Hpack.HuffmanCoder.{HuffmanCoder}
use chttp.Protocol.State.{Http2Protocol, Request, StepResult}
use chttp.Protocol.Submit.{refusal, submit_request}
use chttp.Protocol.Submit.Ids.{is_none, Submits, submit_request-Submits}
use chttp.Protocol.Sound.{IsSound}
use chttp.Protocol.Sound.Outcome.{split_if}
use chttp.Protocol.Sound.Submit.{submit_request-IsSound}
use chttp.Session.{
  RequestContext, SessionEvent, request_done, session_not_healthy, Session, is_healthy,
}
use chttp.Session.Requests.{register, after_submit, submit}
use chttp.Session.Events.{one_of, held, done, keys, KeysBelow}
use chttp.Session.Conservation.{
  IsSoundSession, Conserves, Conserves-then, consume-Conserves, cancel_stream-Conserves,
}

-- The bounds of the keys once a stream with the next id is there.
widen_keys :
    (next more : ℕ) (m : Map ℕ RequestContext) → next ≤ more → KeysBelow next m → KeysBelow more m
widen_keys next more [] le h = tt
widen_keys next more ((j, c) ∷ m) le (below, fresh, h) =
    (omega arith, fresh, widen_keys next more m le h)

keys-assign :
    (k id : ℕ) (c : RequestContext) (m : Map ℕ RequestContext)
    → id ≢ k
    → All (λ j. j ≢ k) (keys m)
    → All (λ j. j ≢ k) (keys (assign ◌==◌ id c m))
unfolding assign
keys-assign k id c [] ne h = (ne, tt)
keys-assign k id c ((j, d) ∷ m) ne (first, h) = elim (Bool-cases (j == id)) [
  | inl t ↦ rw t (ne, h)
  | inr f ↦ rw f (first, keys-assign k id c m ne h)
]

assign_next :
    (next : ℕ) (c : RequestContext) (m : Map ℕ RequestContext)
    → KeysBelow next m
    → KeysBelow (next + 2) (assign ◌==◌ next c m)
unfolding assign
assign_next next c [] h = (omega arith, tt, tt)
assign_next next c ((j, d) ∷ m) (below, fresh, h) =
    let other : j == next ≡ false = ground arith in
    rw other (
      omega arith,
      keys-assign j next c m (λ e. absurd (omega arith)) fresh,
      assign_next next c m h,
    )

held-assign_next :
    (next r : ℕ) (c : RequestContext) (m : Map ℕ RequestContext)
    → KeysBelow next m
    → held r (assign ◌==◌ next c m) ≡ one_of r c + held r m
unfolding assign held
held-assign_next next r c [] h = refl
held-assign_next next r c ((j, d) ∷ m) (below, fresh, h) =
    let other : j == next ≡ false = ground arith in
    rw other (omega (arith, held-assign_next next r c m h))

-- Whether the session answers for a request that it is given: the protocol has taken it, or the
-- session says that it is not healthy.
unfoldable pub is_answered_for : Session → Request → Bool
is_answered_for s request = not (is_healthy s) || is_none (refusal s.protocol request)

-- With the request that is submitted.
unfoldable pub with_submitted : Session → Request → RequestContext → ℕ → ℕ
with_submitted s request context r =
    held r s.stream_contexts + (if is_answered_for s request then one_of r context else 0)

-- The session once it knows of the stream, if there is one.
record Registers (s : Session) (request : Request) (context : RequestContext) (next : ℕ)
    (s' : Session) : Type 0 where
  keys_below : KeysBelow next s'.stream_contexts
  counted : (r : ℕ) → held r s'.stream_contexts ≡ with_submitted s request context r

answered_true :
    (s : Session) (request : Request)
    → is_healthy s ≡ true
    → is_answered_for s request ≡ is_none (refusal s.protocol request)
unfolding is_answered_for
answered_true s request healthy = rw healthy refl

register-Registers :
    (s : Session) (request : Request) (context : RequestContext) (result : StepResult)
    (p : Http2Protocol)
    → KeysBelow s.protocol.next_stream_id s.stream_contexts
    → is_healthy s ≡ true
    → Submits s.protocol request (s.protocol.next_stream_id + 1) (result, p)
    → Registers s request context p.next_stream_id (register s context result)
unfolding register with_submitted
register-Registers s request context result p h healthy submits =
    let next = s.protocol.next_stream_id in
    let m = s.stream_contexts in
    let answered = answered_true s request healthy in
    elim (Bool-cases (is_none (refusal s.protocol request))) [
      | inl t ↦
          let has : result.has_submitted_stream ≡ true = submits.accepted ∙ t in
          let id : result.submitted_stream_id ≡ next = rw t at submits.id in
          let after : p.next_stream_id ≡ next + 2 = rw t at submits.next_id in
          rw (has, id, after)
            (record {
              keys_below = assign_next next (record context { stream_id = next }) m h;
              counted = λ r.
                  rw (answered, t)
                    (omega
                      (arith, held-assign_next next r (record context { stream_id = next }) m h));
            })
      | inr f ↦
          let has : result.has_submitted_stream ≡ false = submits.accepted ∙ f in
          let after : p.next_stream_id ≡ next = rw f at submits.next_id in
          rw (has, after) (record { keys_below = h; counted = λ r. rw (answered, f) (omega arith) })
    ]

Conserves-as :
    (waiting waiting' : ℕ → ℕ) (step : List SessionEvent × Session)
    → ((r : ℕ) → waiting r ≡ waiting' r)
    → Conserves waiting step
    → Conserves waiting' step
Conserves-as waiting waiting' step same c = record {
  sound = c.sound;
  each_once = λ r. c.each_once r ∙ same r;
}

after_submit-Conserves :
    (s : Session) (request : Request) (context : RequestContext) (result : StepResult)
    (p : Http2Protocol)
    → IsSoundSession s
    → is_healthy s ≡ true
    → IsSound p
    → Submits s.protocol request (s.protocol.next_stream_id + 1) (result, p)
    → Conserves (with_submitted s request context) (after_submit s context (result, p))
unfolding after_submit
after_submit-Conserves s request context result p (sound, h) healthy sound' submits =
    let waiting = with_submitted s request context in
    let id = if result.has_submitted_stream then result.submitted_stream_id else 0 in
    let known = register-Registers s request context result p h healthy submits in
    let first =
      Conserves-as _ waiting _ known.counted
        (consume-Conserves (register s context result) result p sound' known.keys_below) in
    split_if (Conserves waiting) (not (id == 0) && (context.canceled && not context.finished))
      (λ _. Conserves-then waiting _ _ first (cancel_stream-Conserves _ id first.sound))
      (λ _. first)

module _ (huffman : HuffmanCoder) where
  submitting :
      (p : Http2Protocol) (request : Request)
      → IsSound p
      → (out : StepResult × Http2Protocol) × (submit_request huffman p request ≡ some out)
        × Submits p request (p.next_stream_id + 1) out
        × IsSound out.1
  submitting p request sound =
      let (_, (low, high), _) = sound in
      let (out, runs, submits) =
        submit_request-Submits huffman p request (p.next_stream_id + 1) (omega arith)
          (λ e. absurd (omega arith)) in
      let (out', runs', sound') = submit_request-IsSound huffman p request sound in
      let both : some out' ≡ some out = sym runs' ∙ runs in
      let same : out' ≡ out = cc both in
      (out, runs, submits, subst (λ (x : StepResult × Http2Protocol). IsSound x.1) same sound')

  -- From a sound session submit never throws and always ends, and leaves a sound session. Every
  -- request that waited is done exactly once or waits still, and so is the one that is submitted
  -- unless the session is healthy and the protocol refuses it: then no event answers it.
  pub submit-Conserves :
      (s : Session) (request : Request) (context : RequestContext)
      → IsSoundSession s
      → (out : List SessionEvent × Session) × (submit huffman s request context ≡ some out)
        × Conserves (with_submitted s request context) out
  unfolding submit with_submitted is_answered_for done
  submit-Conserves s request context (sound, h) = elim (Bool-cases (is_healthy s)) [
    | inr f ↦
        let answered : is_answered_for s request ≡ true = rw f refl in
        (
          (request_done context session_not_healthy ∷ [], s),
          rw f refl,
          record { sound = (sound, h); each_once = λ r. rw answered (omega arith) },
        )
    | inl t ↦
        let ((result, p), runs, submits, sound') = submitting s.protocol request sound in
        (
          after_submit s context (result, p),
          rw (t, runs, submit) refl,
          after_submit-Conserves s request context result p (sound, h) t sound' submits,
        )
  ]
