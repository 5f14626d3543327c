-- ===== src/Flow/Credit.antt =====
-- The receive window: what `take` removes and `add` gives back (InFlow of src/flow.cpp).
use chttp.Prelude.{ℕ, ◌<◌, ◌≤◌, ◌≡◌, ◌↔◌, ◌⊎◌, true, false, arith}
use chttp.Prelude.Int.{pos, pos_part, ◌+ℤ◌, ◌-ℤ◌, ◌≤ℤ◌}
use chttp.Flow.InFlow
use chttp.Flow.InFlow.{InFlow}

-- The bytes that the peer may still send and those that were consumed but not yet announced add
-- up to the window of `w` bytes.
pub record HasCredit (w : ℕ) (f : InFlow) : Type 0 where
  pub whole : f.avail +ℤ f.unsent ≡ pos w
  pub unsent_nonneg : pos 0 ≤ℤ f.unsent
  pub avail_nonneg : pos 0 ≤ℤ f.avail

-- A window that n bytes were taken from: what is available and what is unsent fall short by n.
record IsShort (w n : ℕ) (f : InFlow) : Type 0 where
  missing : f.avail +ℤ f.unsent +ℤ pos n ≡ pos w
  avail_nonneg : pos 0 ≤ℤ f.avail
  unsent_nonneg : pos 0 ≤ℤ f.unsent

take-IsShort :
    (w n : ℕ) (f : InFlow)
    → w < 2147483648
    → HasCredit w f
    → (InFlow.take f n).1 ≡ true
    → IsShort w n (InFlow.take f n).0
unfolding InFlow.take ◌+ℤ◌ ◌-ℤ◌
take-IsShort w n f hw c t = ground arith

-- What a successful `take_inflows` leaves.
abbrev Falls : ℕ → InFlow → InFlow → Type 0
Falls n f f' = (f'.avail +ℤ pos n ≡ f.avail) × (f'.unsent ≡ f.unsent) × (pos 0 ≤ℤ f'.avail)

take_inflows-Falls :
    (n : ℕ) (f g : InFlow)
    → pos_part f.avail < 2147483648
    → pos_part g.avail < 2147483648
    → pos 0 ≤ℤ f.avail
    → pos 0 ≤ℤ g.avail
    → (InFlow.take_inflows f g n).2 ≡ true
    → Falls n f (InFlow.take_inflows f g n).0 × Falls n g (InFlow.take_inflows f g n).1
unfolding InFlow.take_inflows ◌+ℤ◌ ◌-ℤ◌
take_inflows-Falls n f g hf hg a b t = ground arith

Falls-IsShort : (w n : ℕ) (f f' : InFlow) → HasCredit w f → Falls n f f' → IsShort w n f'
unfolding ◌+ℤ◌
Falls-IsShort w n f f' c h = ground arith

credit-bound : (w : ℕ) (f : InFlow) → HasCredit w f → pos_part f.avail ≤ w
unfolding ◌+ℤ◌
credit-bound w f c = ground arith

take_inflows-IsShort :
    (v w n : ℕ) (f g : InFlow)
    → v < 2147483648
    → w < 2147483648
    → HasCredit v f
    → HasCredit w g
    → (InFlow.take_inflows f g n).2 ≡ true
    → IsShort v n (InFlow.take_inflows f g n).0 × IsShort w n (InFlow.take_inflows f g n).1
take_inflows-IsShort v w n f g hv hw c d t =
    let (af, ag) =
      take_inflows-Falls n f g (omega (arith, credit-bound v f c))
        (omega (arith, credit-bound w g d)) c.avail_nonneg d.avail_nonneg t in
    (Falls-IsShort v n f _ c af, Falls-IsShort w n g _ d ag)

add-HasCredit :
    (w n : ℕ) (f : InFlow)
    → w < 2147483648
    → IsShort w n f
    → HasCredit w (InFlow.add f (pos n)).0
      × (pos 0 ≤ℤ (InFlow.add f (pos n)).1)
      × ((InFlow.add f (pos n)).0.avail ≡ f.avail +ℤ (InFlow.add f (pos n)).1)
unfolding InFlow.add ◌+ℤ◌
add-HasCredit w n f hw s = ground arith

-- On a window of at most 2^31 - 1 bytes that has its whole credit, taking n bytes and giving them
-- back keeps the whole credit: `add` does not report an overflow, and the increment that it
-- announces is what the available window grows by.
pub add-take :
    (w n : ℕ) (f : InFlow)
    → w < 2147483648
    → HasCredit w f
    → (InFlow.take f n).1 ≡ true
    → HasCredit w (InFlow.add (InFlow.take f n).0 (pos n)).0
      × (pos 0 ≤ℤ (InFlow.add (InFlow.take f n).0 (pos n)).1)
      × ((InFlow.add (InFlow.take f n).0 (pos n)).0.avail
          ≡ (InFlow.take f n).0.avail +ℤ (InFlow.add (InFlow.take f n).0 (pos n)).1)
add-take w n f hw c t = add-HasCredit w n _ hw (take-IsShort w n f hw c t)

-- On two windows of at most 2^31 - 1 bytes, the connection's and the stream's, that have their
-- whole credit: where a DATA frame of n bytes takes from both at once, giving the n bytes back to
-- each keeps the whole credit of both. Neither `add` reports an overflow, and the increment that
-- each announces is what that available window grows by.
pub add-take_inflows :
    (v w n : ℕ) (f g : InFlow)
    → v < 2147483648
    → w < 2147483648
    → HasCredit v f
    → HasCredit w g
    → (InFlow.take_inflows f g n).2 ≡ true
    → HasCredit v (InFlow.add (InFlow.take_inflows f g n).0 (pos n)).0
      × HasCredit w (InFlow.add (InFlow.take_inflows f g n).1 (pos n)).0
      × (pos 0 ≤ℤ (InFlow.add (InFlow.take_inflows f g n).0 (pos n)).1)
      × (pos 0 ≤ℤ (InFlow.add (InFlow.take_inflows f g n).1 (pos n)).1)
      × ((InFlow.add (InFlow.take_inflows f g n).0 (pos n)).0.avail
          ≡ (InFlow.take_inflows f g n).0.avail
            +ℤ (InFlow.add (InFlow.take_inflows f g n).0 (pos n)).1)
      × ((InFlow.add (InFlow.take_inflows f g n).1 (pos n)).0.avail
          ≡ (InFlow.take_inflows f g n).1.avail
            +ℤ (InFlow.add (InFlow.take_inflows f g n).1 (pos n)).1)
add-take_inflows v w n f g hv hw c d t =
    let (sf, sg) = take_inflows-IsShort v w n f g hv hw c d t in
    let (cf, rf, grows_f) = add-HasCredit v n _ hv sf in
    let (cg, rg, grows_g) = add-HasCredit w n _ hw sg in (cf, cg, rf, rg, grows_f, grows_g)

-- Taking n bytes from two windows that are not negative succeeds exactly when n is 0 or at most
-- what each has available; on failure neither changes, and on success both fall by n (n below
-- 2^31).
pub take_inflows_exact :
    (n : ℕ) (f g : InFlow)
    → n < 2147483648
    → pos 0 ≤ℤ f.avail
    → pos 0 ≤ℤ g.avail
    → (((InFlow.take_inflows f g n).2 ≡ true) ↔ ((pos n ≤ℤ f.avail) × (pos n ≤ℤ g.avail)))
      × (((InFlow.take_inflows f g n ≡ (f, g, false)))
          ⊎ (((InFlow.take_inflows f g n).0.avail +ℤ pos n ≡ f.avail)
              × ((InFlow.take_inflows f g n).1.avail +ℤ pos n ≡ g.avail)
              × ((InFlow.take_inflows f g n).2 ≡ true)))
unfolding InFlow.take_inflows ◌+ℤ◌ ◌-ℤ◌
take_inflows_exact n f g hn a b = ground arith
