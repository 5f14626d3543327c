-- ===== src/Protocol/Settings/Windows.antt =====
-- What applying the peer's settings keeps and changes (applyPeerSettings, src/http2_protocol.cpp).
use chttp.Prelude.{
  ℕ, ◌≤◌, ◌≡◌, ◌==◌, ap, List, [], ◌∷◌, some, true, false, ltb, inl, inr, Bool-cases, arith,
}
use chttp.Prelude.Int.{ℤ, ◌+ℤ◌, ◌-ℤ◌, signed32}
use chttp.Prelude.Map.{Map, lookup}
use chttp.Flow.OutFlow
use chttp.Protocol.Constants.{
  no_error, flow_control_error, minimum_max_frame_size, maximum_max_frame_size, maximum_window_size,
}
use chttp.Protocol.State.{Http2Protocol, Stream}
use chttp.Protocol.Settings.{
  overflows, shift_windows, apply_initial_window_size, apply_setting, apply_settings,
}

-- A peer's frame size within the protocol's range, which emission needs not to run for ever.
pub record FrameSizeIsLegal (p : Http2Protocol) : Type 0 where
  pub at_least : minimum_max_frame_size ≤ p.max_frame_size
  pub at_most : p.max_frame_size ≤ maximum_max_frame_size

apply_setting-FrameSizeIsLegal :
    (p : Http2Protocol) (id value : ℕ)
    → FrameSizeIsLegal p
    → FrameSizeIsLegal (apply_setting p id value).1
unfolding apply_setting apply_initial_window_size
apply_setting-FrameSizeIsLegal p id value h = record {
  at_least = ground (arith, h.at_least);
  at_most = ground (arith, h.at_most);
}

-- Whatever settings the peer sends, and whether they are refused or not, its frame size stays
-- within the range of RFC 9113, 2 ^ 14 to 2 ^ 24 - 1.
pub apply_settings-FrameSizeIsLegal :
    (settings : List (ℕ × ℕ)) (p : Http2Protocol)
    → FrameSizeIsLegal p
    → FrameSizeIsLegal (apply_settings p settings).1
unfolding apply_settings
apply_settings-FrameSizeIsLegal [] p h = h
apply_settings-FrameSizeIsLegal ((id, value) ∷ settings) p h =
    let one = apply_setting-FrameSizeIsLegal p id value h in
    elim (Bool-cases ((apply_setting p id value).0 == no_error)) [
      | inl t ↦ rw t (apply_settings-FrameSizeIsLegal settings (apply_setting p id value).1 one)
      | inr f ↦ rw f one
    ]

-- A stream whose send window has been moved by delta, and nothing else.
abbrev pub shifted : ℤ → Stream → Stream
shifted delta s = record s { outflow = record { window = s.outflow.window +ℤ delta } }

add_fits :
    (f : OutFlow.OutFlow) (delta : ℤ)
    → (OutFlow.add f delta).1 ≡ true
    → (OutFlow.add f delta).0 ≡ record { window = f.window +ℤ delta }
unfolding OutFlow.add
add_fits f delta h = ground arith

shift_windows-lookup :
    (delta : ℤ) (streams : Map ℕ Stream) (j : ℕ) (s : Stream)
    → (shift_windows delta streams).1 ≡ true
    → lookup ◌==◌ j streams ≡ some s
    → lookup ◌==◌ j (shift_windows delta streams).0 ≡ some (shifted delta s)
unfolding shift_windows lookup
shift_windows-lookup delta [] j s h e = cc
shift_windows-lookup delta ((id, t) ∷ streams) j s h e =
    elim (Bool-cases (OutFlow.add t.outflow delta).1) [
      | inr f ↦ let never : false ≡ true = rw f at h in cc never
      | inl fits ↦
          let rest_fits : (shift_windows delta streams).1 ≡ true = rw fits at h in
          rw (fits, add_fits t.outflow delta fits)
            (elim (Bool-cases (id == j)) [
              | inl t' ↦ rw t' (
                  let found : some t ≡ some s = rw t' at e in
                  let same : t ≡ s = cc found in ap (λ x. some (shifted delta x)) same)
              | inr f ↦ rw f (shift_windows-lookup delta streams j s rest_fits (rw f at e))
            ])
    ]

pub difference_fits :
    (value old : ℕ)
    → value ≤ maximum_window_size
    → old ≤ maximum_window_size
    → overflows (signed32 value -ℤ signed32 old) ≡ false
unfolding overflows ◌-ℤ◌
difference_fits value old h k = ground arith

-- Where the peer changes SETTINGS_INITIAL_WINDOW_SIZE and the change is accepted, the send window
-- of every stream moves by the difference to the old value, and the stream is otherwise the same.
-- Where the old value is a legal one, at most 2^31 - 1, the difference does not overflow.
pub apply_initial_window_size-lookup :
    (p : Http2Protocol) (value j : ℕ) (s : Stream)
    → p.initial_window_size ≤ maximum_window_size
    → (apply_initial_window_size p value).0 ≡ no_error
    → lookup ◌==◌ j p.streams ≡ some s
    → (lookup ◌==◌ j (apply_initial_window_size p value).1.streams
        ≡ some (shifted (signed32 value -ℤ signed32 p.initial_window_size) s))
      × ((apply_initial_window_size p value).1.undefined_behavior ≡ p.undefined_behavior)
unfolding apply_initial_window_size
apply_initial_window_size-lookup p value j s legal h e =
    let delta = signed32 value -ℤ signed32 p.initial_window_size in
    elim (Bool-cases (ltb maximum_window_size value)) [
      | inl t ↦ let never : flow_control_error ≡ no_error = rw t at h in absurd (omega arith)
      | inr f ↦
          let all_fit : (shift_windows delta p.streams).1 ≡ true = ground arith in
          rw f (
            shift_windows-lookup delta p.streams j s all_fit e,
            rw (difference_fits value p.initial_window_size (ground arith) legal) (ground arith),
          )
    ]
