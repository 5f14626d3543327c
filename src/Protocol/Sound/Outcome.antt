-- ===== src/Protocol/Sound/Outcome.antt =====
-- What a handler of src/http2_protocol.cpp may give: no exception, a sound state the received
-- bytes and the next id as they were; and the failures of streams and of the connection do.
use chttp.Prelude.{
  ℕ, ◌==◌, ◌≡◌, ◌∙◌, refl, subst, List, [], ◌∷◌, ◌>>=◌, Option, some, none, Bool, true, false, not,
  ◌&&◌, inl, inr, Bool-cases, Option-cases, if◌then◌else◌,
}
use Prim.{⊥}
use chttp.Prelude.Map.{lookup}
use chttp.FrameCodec.{FrameCodec}
use chttp.Protocol.Constants.{ErrorCode, compression_error}
use chttp.Protocol.State.{Http2Protocol, Stream, StepResult}
use chttp.Protocol.Fail.{
  fail_stream, fail_each, ids_of, fail_all_streams, fail_connection, handle_header_block_error,
}
use chttp.Protocol.Fail.Closing.{fail_connection-closed}
use chttp.Protocol.Response.{store}
use chttp.Protocol.Receive.Data.{Outcome}
use chttp.Protocol.Sound.{IsSoundMap, IsSoundStream, IsLegalSize, IsSound, IsReady}
use chttp.Protocol.Sound.Streams.{erase-IsSoundMap, assign-IsSoundMap}

-- What the handlers leave as it is: the received bytes and the next id.
abbrev pub Kept : Type 0
Kept = FrameCodec × ℕ

abbrev pub kept : Http2Protocol → Kept
kept p = (p.frame_codec, p.next_stream_id)

-- A step leaves a sound state with those received bytes.
pub record Leaves (codec : Kept) (step : StepResult × Http2Protocol) : Type 0 where
  pub sound : IsSound (step.1)
  pub same_kept : kept (step.1) ≡ codec

-- The same, and the connection stays open.
pub record LeavesOpen (codec : Kept) (step : StepResult × Http2Protocol) : Type 0 where
  pub ready : IsReady (step.1)
  pub same_kept : kept (step.1) ≡ codec

-- A handler gives such a step, and so neither throws nor runs on.
unfoldable pub Good : Kept → Outcome → Type 0
Good codec none = ⊥
Good codec (some step) = Leaves codec step

unfoldable pub Stays : Kept → Outcome → Type 0
Stays codec none = ⊥
Stays codec (some step) = LeavesOpen codec step

pub IsReady-IsSound : (p : Http2Protocol) → IsReady p → IsSound p
IsReady-IsSound p (h, l, live) = (h, l, inl live)

pub unchanged : (r : StepResult) (p : Http2Protocol) → IsReady p → Leaves (kept p) (r, p)
unchanged r p ready = record { sound = IsReady-IsSound p ready; same_kept = refl }

pub unchanged_open : (r : StepResult) (p : Http2Protocol) → IsReady p → LeavesOpen (kept p) (r, p)
unchanged_open r p ready = record { ready = ready; same_kept = refl }

pub LeavesOpen-Leaves :
    (codec : Kept) (step : StepResult × Http2Protocol) → LeavesOpen codec step → Leaves codec step
LeavesOpen-Leaves codec step h = record {
  sound = IsReady-IsSound step.1 h.ready;
  same_kept = h.same_kept;
}

pub Good-some :
    (codec : Kept) (step : StepResult × Http2Protocol) → Leaves codec step → Good codec (some step)
unfolding Good
Good-some codec step h = h

pub Stays-some :
    (codec : Kept) (step : StepResult × Http2Protocol)
    → LeavesOpen codec step
    → Stays codec (some step)
unfolding Stays
Stays-some codec step h = h

pub Stays-Good : (codec : Kept) (o : Outcome) → Stays codec o → Good codec o
unfolding Good Stays
Stays-Good codec none bad = bad
Stays-Good codec (some step) h = LeavesOpen-Leaves codec step h

-- What holds of both branches, each under its condition, holds of the conditional.
pub split_if {ℓ κ} :
    {A : Type ℓ} (P : A → Type κ) (b : Bool) {x y : A}
    → (b ≡ true → P x)
    → (b ≡ false → P y)
    → P (if b then x else y)
split_if P true in_x in_y = in_x refl
split_if P false in_x in_y = in_y refl

pub Stays-same : (a b : Kept) (o : Outcome) → a ≡ b → Stays a o → Stays b o
Stays-same a b o e h = subst (λ codec. Stays codec o) e h

pub Stays-runs :
    (codec : Kept) (o : Outcome)
    → Stays codec o
    → (step : StepResult × Http2Protocol) × (o ≡ some step) × LeavesOpen codec step
unfolding Stays
Stays-runs codec none bad = absurd bad
Stays-runs codec (some step) h = (step, refl, h)

pub Good-runs :
    (codec : Kept) (o : Outcome)
    → Good codec o
    → (step : StepResult × Http2Protocol) × (o ≡ some step) × Leaves codec step
unfolding Good
Good-runs codec none bad = absurd bad
Good-runs codec (some step) h = (step, refl, h)

-- A value that a handler is sure to get.
pub Good-then {ℓ} :
    {A : Type ℓ} (codec : Kept) {o : Option A} {a : A} (f : A → Outcome)
    → o ≡ some a
    → Good codec (f a)
    → Good codec (o >>= f)
Good-then codec f e good = rw e good

-- One handler after the other.
pub Good-after :
    (codec : Kept) (o : Outcome) (f : StepResult × Http2Protocol → Outcome)
    → Good codec o
    → ((step : StepResult × Http2Protocol) → Leaves codec step → Good codec (f step))
    → Good codec (o >>= f)
unfolding Good
Good-after codec none f bad next = bad
Good-after codec (some step) f good next = next step good

pub Stays-after :
    (codec : Kept) (o : Outcome) (f : StepResult × Http2Protocol → Outcome)
    → Stays codec o
    → ((step : StepResult × Http2Protocol) → LeavesOpen codec step → Stays codec (f step))
    → Stays codec (o >>= f)
unfolding Stays
Stays-after codec none f bad next = bad
Stays-after codec (some step) f good next = next step good

-- What the store of a sound stream leaves.
pub store-IsReady :
    (p : Http2Protocol) (s : Stream)
    → IsReady p
    → IsSoundStream p.next_stream_id s
    → IsReady (store p s)
store-IsReady p s (h, l, live) sound =
    (assign-IsSoundMap p.next_stream_id s.stream_id s p.streams h (refl, sound), l, live)

-- What failStream leaves, but for `closed`.
abbrev pub Carries : Kept → Http2Protocol → Type 0
Carries codec p =
    IsSoundMap p.next_stream_id p.streams × IsLegalSize p.max_frame_size × (kept p ≡ codec)

fail_stream-Carries :
    (codec : Kept) (p : Http2Protocol) (id : ℕ) (code : ErrorCode) (send_rst : Bool)
    → Carries codec p
    → Carries codec (fail_stream p id code send_rst).1
unfolding fail_stream
fail_stream-Carries codec p id code send_rst (h, l, same) =
    elim (Option-cases (lookup ◌==◌ id p.streams)) [
      | inl e ↦ rw (e, fail_stream) (h, l, same)
      | inr (s, e) ↦ rw (e, fail_stream) (erase-IsSoundMap p.next_stream_id id p.streams h, l, same)
    ]

pub fail_each-Carries :
    (codec : Kept) (code : ErrorCode) (ids : List ℕ) (result : StepResult) (p : Http2Protocol)
    → Carries codec p
    → Carries codec (fail_each code ids result p).1
unfolding fail_each
fail_each-Carries codec code [] result p h = h
fail_each-Carries codec code (id ∷ ids) result p h =
    fail_each-Carries codec code ids _ _ (fail_stream-Carries codec p id code false h)

fail_connection-Carries :
    (codec : Kept) (p : Http2Protocol) (code : ErrorCode) (debug_data : List ℕ)
    → Carries codec p
    → Carries codec (fail_connection p code debug_data).1
unfolding fail_connection fail_all_streams
fail_connection-Carries codec p code debug_data h =
    elim (Bool-cases (not p.sent_goaway && not p.transport_closed)) [
      | inl t ↦ rw t (fail_each-Carries codec code (ids_of p.streams) _ _ h)
      | inr f ↦ rw f (fail_each-Carries codec code (ids_of p.streams) _ _ h)
    ]

pub fail_stream-LeavesOpen :
    (p : Http2Protocol) (id : ℕ) (code : ErrorCode) (send_rst : Bool)
    → IsReady p
    → LeavesOpen (kept p) (fail_stream p id code send_rst)
unfolding fail_stream
fail_stream-LeavesOpen p id code send_rst (h, l, live) =
    elim (Option-cases (lookup ◌==◌ id p.streams)) [
      | inl e ↦ rw (e, fail_stream) (record { ready = (h, l, live); same_kept = refl })
      | inr (s, e) ↦
          rw (e, fail_stream)
            (record {
              ready = (erase-IsSoundMap p.next_stream_id id p.streams h, l, live);
              same_kept = refl;
            })
    ]

pub fail_stream-Leaves :
    (p : Http2Protocol) (id : ℕ) (code : ErrorCode) (send_rst : Bool)
    → IsReady p
    → Leaves (kept p) (fail_stream p id code send_rst)
fail_stream-Leaves p id code send_rst h =
    LeavesOpen-Leaves (kept p) _ (fail_stream-LeavesOpen p id code send_rst h)

pub fail_each-LeavesOpen :
    (code : ErrorCode) (ids : List ℕ) (result : StepResult) (codec : Kept) (p : Http2Protocol)
    → IsReady p
    → kept p ≡ codec
    → LeavesOpen codec (fail_each code ids result p)
unfolding fail_each
fail_each-LeavesOpen code [] result codec p h same = record { ready = h; same_kept = same }
fail_each-LeavesOpen code (id ∷ ids) result codec p h same =
    let one = fail_stream-LeavesOpen p id code false h in
    fail_each-LeavesOpen code ids _ codec _ one.ready (one.same_kept ∙ same)

pub fail_connection-Leaves :
    (p : Http2Protocol) (code : ErrorCode) (debug_data : List ℕ)
    → IsReady p
    → Leaves (kept p) (fail_connection p code debug_data)
fail_connection-Leaves p code debug_data ((d, all), l, live) =
    let (h', l', same) = fail_connection-Carries (kept p) p code debug_data ((d, all), l, refl) in
    let (closed, no_streams, _, _) = fail_connection-closed p code debug_data d in
    record { sound = (h', l', inr no_streams); same_kept = same }

pub handle_header_block_error-Leaves :
    (p : Http2Protocol) (id : ℕ) (code : ErrorCode)
    → IsReady p
    → Leaves (kept p) (handle_header_block_error p id code)
unfolding handle_header_block_error
handle_header_block_error-Leaves p id code h =
    split_if (Leaves (kept p)) (code == compression_error) (λ _. fail_connection-Leaves p code _ h)
      (λ _. fail_stream-Leaves p id code true h)
