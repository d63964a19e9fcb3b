-- ===== src/Ring/Inv.antt =====
-- What holds of the ring of lib/include/kickcat/Ring.h between two calls: the counters are 32-bit
-- words at most `N` apart, whatever number of times they have wrapped.
use kick_cat.Base.{ℕ, ◌+◌, ◌^◌, ◌≤◌, ◌<◌, ◌≡◌, arith}
use kick_cat.Base.Bits.{bit_and-mask, pow_pos}
use native.Mathlib.Nat.{mod-lt, pow-le-pow_right}
use kick_cat.Ring.{Ring, u32_mod, capacity, slot, size, available, reset, push, pop}

-- Every access of `data` is in range.
pub slot-lt : (k counter : ℕ) → slot k counter < capacity k
slot-lt k counter = omega (arith, bit_and-mask k counter, mod-lt counter {m = 2 ^ k} (pow_pos k))

pub capacity-le : (k : ℕ) → k ≤ 31 → capacity k ≤ 2 ^ 31
capacity-le k h = pow-le-pow_right {n = 2} (omega arith) h

module _ {ℓ} {A : Type ℓ} where
  pub record IsValid (k : ℕ) (r : Ring A) : Type 0 where
    pub power : k ≤ 31
    pub head_word : r.head < u32_mod
    pub tail_word : r.tail < u32_mod
    pub within : size r ≤ capacity k

  pub reset-IsValid : (k : ℕ) (r : Ring A) → k ≤ 31 → IsValid k (reset r)
  unfolding reset size
  reset-IsValid k r h = omega arith

  pub push-IsValid : (k : ℕ) {r : Ring A} (x : A) → IsValid k r → IsValid k (push k r x).1
  unfolding push
  push-IsValid k x v = ground (arith, capacity-le k)

  pub pop-IsValid : (k : ℕ) {r : Ring A} (x : A) → IsValid k r → IsValid k (pop k r x).2
  unfolding pop
  pop-IsValid k x v = ground (arith, capacity-le k)

  pub available-add-size : (k : ℕ) {r : Ring A} → IsValid k r → available k r + size r ≡ capacity k
  unfolding available size
  available-add-size k v = ground (arith, capacity-le k)
