-- ===== src/Ring.antt =====
-- The single-producer, single-consumer ring of lib/include/kickcat/Ring.h: `Ring<T, N>` with
-- `N = 2 ^ k`. The two counters run freely modulo 2 ^ 32 and are masked by `N - 1` at each access.
-- `T data[N]` is a function from the index.
pub mod Inv
pub mod Refine
mod Tests
use kick_cat.Base.{ℕ, ◌+◌, ◌-◌, ◌%◌, ◌^◌, Bool, true, false, bit_and, ◌==◌, if◌then◌else◌}

pub record Ring {ℓ} (A : Type ℓ) : Type ℓ where
  pub head : ℕ
  pub tail : ℕ
  pub cells : ℕ → A

abbrev pub u32_mod : ℕ
u32_mod = 2 ^ 32

-- `data[i] = v`
abbrev pub store {ℓ} : {A : Type ℓ} → (ℕ → A) → ℕ → A → ℕ → A
store f i v j = if j == i then v else f j

abbrev pub capacity : ℕ → ℕ
capacity k = 2 ^ k

-- `counter & (N - 1)`
abbrev pub slot : ℕ → ℕ → ℕ
slot k counter = bit_and counter (2 ^ k - 1)

module _ {ℓ} {A : Type ℓ} where
  -- `head - tail` on `uint32_t`
  unfoldable pub size : Ring A → ℕ
  size r = (r.head + u32_mod - r.tail) % u32_mod

  unfoldable pub available : ℕ → Ring A → ℕ
  available k r = (capacity k + u32_mod - size r) % u32_mod

  unfoldable pub is_full : ℕ → Ring A → Bool
  is_full k r = size r == capacity k

  unfoldable pub is_empty : Ring A → Bool
  is_empty r = size r == 0

  unfoldable pub reset : Ring A → Ring A
  reset r = record r { head = 0; tail = 0 }

  unfoldable pub push : ℕ → Ring A → A → Bool × Ring A
  unfolding is_full size
  push k r entry = if is_full k r then (false, r) else (
    true,
    record r { head = (r.head + 1) % u32_mod; cells = store r.cells (slot k r.head) entry },
  )

  -- `entry` is what the reference held before the call: it stays when the ring is empty.
  unfoldable pub pop : ℕ → Ring A → A → Bool × A × Ring A
  unfolding is_empty size
  pop k r entry =
      if is_empty r
      then (false, entry, r)
      else (true, r.cells (slot k r.tail), record r { tail = (r.tail + 1) % u32_mod })
