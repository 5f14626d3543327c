-- ===== src/Protocol/Sound/Streams.antt =====
-- The maps of streams that the handlers leave (src/http2_protocol.cpp): the operations on a map keep
-- its keys distinct and its streams sound.
use chttp.Prelude.{
  ℕ, ◌==◌, ◌≤◌, ◌≡◌, ◌≢◌, ◌↔◌, refl, [], ◌∷◌, some, true, inl, inr, Bool-cases, All, arith,
}
use chttp.Prelude.Int.{ℤ}
use chttp.Prelude.Map.{Map, lookup, assign, erase, lookup-All}
use chttp.Flow.OutFlow
use chttp.Protocol.State.{Stream}
use chttp.Protocol.Settings.{shift_windows}
use chttp.Protocol.Fail.{ids_of}
use chttp.Protocol.Sound.{IsSoundEntry, IsSoundMap}

eq_iff : (a b : ℕ) → (a == b ≡ true) ↔ (a ≡ b)
eq_iff a b = ground arith

pub lookup-IsSoundEntry :
    (next id : ℕ) (s : Stream) (m : Map ℕ Stream)
    → IsSoundMap next m
    → lookup ◌==◌ id m ≡ some s
    → IsSoundEntry next (id, s)
lookup-IsSoundEntry next id s m (d, all) e = lookup-All ◌==◌ eq_iff (IsSoundEntry next) id s m all e

ids-erase :
    (k id : ℕ) (m : Map ℕ Stream)
    → All (λ j. j ≢ k) (ids_of m)
    → All (λ j. j ≢ k) (ids_of (erase ◌==◌ id m))
unfolding erase
ids-erase k id [] h = tt
ids-erase k id ((j, s) ∷ m) (ne, h) = elim (Bool-cases (j == id)) [
  | inl t ↦ rw t (ids-erase k id m h)
  | inr f ↦ rw f (ne, ids-erase k id m h)
]

pub erase-IsSoundMap :
    (next id : ℕ) (m : Map ℕ Stream) → IsSoundMap next m → IsSoundMap next (erase ◌==◌ id m)
unfolding erase
erase-IsSoundMap next id [] h = h
erase-IsSoundMap next id ((j, s) ∷ m) ((fresh, d), (one, all)) =
    let (d', all') = erase-IsSoundMap next id m (d, all) in
    elim (Bool-cases (j == id)) [
      | inl t ↦ rw t (d', all')
      | inr f ↦ rw f ((ids-erase j id m fresh, d'), (one, all'))
    ]

ids-assign :
    (k id : ℕ) (s : Stream) (m : Map ℕ Stream)
    → id ≢ k
    → All (λ j. j ≢ k) (ids_of m)
    → All (λ j. j ≢ k) (ids_of (assign ◌==◌ id s m))
unfolding assign
ids-assign k id s [] ne h = (ne, tt)
ids-assign k id s ((j, w) ∷ m) ne (first, h) = elim (Bool-cases (j == id)) [
  | inl t ↦ rw t (ne, h)
  | inr f ↦ rw f (first, ids-assign k id s m ne h)
]

pub assign-IsSoundMap :
    (next id : ℕ) (s : Stream) (m : Map ℕ Stream)
    → IsSoundMap next m
    → IsSoundEntry next (id, s)
    → IsSoundMap next (assign ◌==◌ id s m)
unfolding assign
assign-IsSoundMap next id s [] h e = ((tt, tt), (e, tt))
assign-IsSoundMap next id s ((j, w) ∷ m) ((fresh, d), (one, all)) e =
    let (d', all') = assign-IsSoundMap next id s m (d, all) e in
    elim (Bool-cases (j == id)) [
      | inl t ↦ let same : id ≡ j = ground arith in rw t ((rw same fresh, d), (e, all))
      | inr f ↦ rw f ((ids-assign j id s m (ground arith) fresh, d'), (one, all'))
    ]

ids-shift_windows : (delta : ℤ) (m : Map ℕ Stream) → ids_of (shift_windows delta m).0 ≡ ids_of m
unfolding shift_windows
ids-shift_windows delta [] = refl
ids-shift_windows delta ((j, s) ∷ m) = ground (arith, ids-shift_windows delta m)

pub shift_windows-IsSoundMap :
    (next : ℕ) (delta : ℤ) (m : Map ℕ Stream)
    → IsSoundMap next m
    → IsSoundMap next (shift_windows delta m).0
unfolding shift_windows
shift_windows-IsSoundMap next delta [] h = h
shift_windows-IsSoundMap next delta ((j, s) ∷ m) ((fresh, d), (one, all)) =
    let (d', all') = shift_windows-IsSoundMap next delta m (d, all) in
    elim (Bool-cases (OutFlow.add s.outflow delta).1) [
      | inl t ↦ rw t ((rw (ids-shift_windows delta m) fresh, d'), (one, all'))
      | inr f ↦ rw f ((fresh, d), (one, all))
    ]

widen :
    (next more : ℕ) (m : Map ℕ Stream)
    → next ≤ more
    → All (IsSoundEntry next) m
    → All (IsSoundEntry more) m
widen next more [] le all = tt
widen next more ((j, s) ∷ m) le ((same, (within, below, status)), all) =
    ((same, (within, omega arith, status)), widen next more m le all)

-- A larger next id.
pub widen-IsSoundMap :
    (next more : ℕ) (m : Map ℕ Stream) → next ≤ more → IsSoundMap next m → IsSoundMap more m
widen-IsSoundMap next more m le (d, all) = (d, widen next more m le all)
