-- ===== src/Ring/Refine.antt =====
-- The ring of lib/include/kickcat/Ring.h next to a bounded queue of the entries that it holds.
use kick_cat.Base.{
  ℕ, zero, suc, ◌+◌, ◌-◌, ◌%◌, ◌^◌, ◌≤◌, ◌<◌, Bool, true, false, ◌≡◌, ◌≢◌, refl, sym, ap, ap₂, ◌∙◌,
  arith, if◌then◌else◌, ◌==◌, List, [], ◌∷◌, ◌++◌, ==_self, ==_ne,
}
use kick_cat.Base.Bits.{bit_and-mask, wrap-mod}
use kick_cat.Base.Lists.{length}
use native.Mathlib.Nat.{mod-lt, mod-add-mod, mod-eq_of_lt, mod-eq-sub-mod}
use native.Mathlib.Decide.{dec_lt, ℕ_discrete}
use kick_cat.Ring.{Ring, u32_mod, capacity, slot, store, size, push}
use kick_cat.Ring.Inv.{IsValid, capacity-le}

-- A step of less than `n` changes the remainder.
mod-add-ne : (n t m : ℕ) → suc m < n → (t + suc m) % n ≢ t % n
mod-add-ne n t m h e = elim (dec_lt (t % n + suc m) n) [
  | yes p ↦ omega (arith, mod-add-mod t n (suc m), mod-eq_of_lt p)
  | no p ↦ omega (
    arith,
    mod-add-mod t n (suc m),
    mod-eq-sub-mod {n = t % n + suc m} {m = n} (omega arith),
    mod-eq_of_lt {n = t % n + suc m - n} {m = n} (omega (arith, mod-lt t {m = n} (omega arith))),
  )
]

slot-wrap : (k n : ℕ) → k ≤ 31 → slot k (n % u32_mod) ≡ n % 2 ^ k
slot-wrap k n h = bit_and-mask k (n % u32_mod) ∙ wrap-mod k n (omega arith)

-- Counters less than `N` apart stand at different slots.
slot-ne : (k t m : ℕ) → k ≤ 31 → suc m < 2 ^ k → slot k t ≢ slot k ((t + suc m) % u32_mod)
slot-ne k t m hk h e =
    mod-add-ne (2 ^ k) t m h (sym (slot-wrap k (t + suc m) hk) ∙ sym e ∙ bit_and-mask k t)

wrap_zero : (t h : ℕ) → h ≡ (t + 0) % u32_mod → t % u32_mod ≡ h
wrap_zero t h e = omega arith

store_self {ℓ} : {A : Type ℓ} (f : ℕ → A) (i j : ℕ) (x : A) → j ≡ i → store f i x j ≡ x
store_self f i j x e = ground arith

store_ne {ℓ} : {A : Type ℓ} (f : ℕ → A) (i j : ℕ) (x : A) → j ≢ i → store f i x j ≡ f j
store_ne f i j x h = ground arith

module _ {ℓ} {A : Type ℓ} where
  -- The bounded queue: what a client may expect.
  unfoldable pub enqueue : ℕ → List A → A → Bool × List A
  enqueue cap q x = if length q == cap then (false, q) else (true, q ++ (x ∷ []))

  unfoldable pub dequeue : List A → A → Bool × A × List A
  dequeue [] e = (false, e, [])
  dequeue (x ∷ q) e = (true, x, q)

  -- The `n` entries from counter `t` on, oldest first.
  abbrev pub window : (ℕ → A) → ℕ → ℕ → ℕ → List A
  window cells k t zero = []
  window cells k t (suc n) = cells (slot k t) ∷ window cells k ((t + 1) % u32_mod) n

  abbrev pub contents : ℕ → Ring A → List A
  contents k r = window r.cells k r.tail (size r)

  length-window : (cells : ℕ → A) (k t n : ℕ) → length (window cells k t n) ≡ n
  length-window cells k t zero = refl
  length-window cells k t (suc n) = ap suc (length-window cells k ((t + 1) % u32_mod) n)

  window-store :
      (cells : ℕ → A) (x : A) (k t n h : ℕ)
      → k ≤ 31
      → n < 2 ^ k
      → h ≡ (t + n) % u32_mod
      → window (store cells (slot k h) x) k t (suc n) ≡ window cells k t n ++ (x ∷ [])
  window-store cells x k t zero h hk hn e =
      let same : slot k t ≡ slot k h =
        bit_and-mask k t ∙ sym (slot-wrap k t hk) ∙ ap (slot k) (wrap_zero t h e) in
      ap (λ y. y ∷ []) (store_self cells (slot k h) (slot k t) x same)
  window-store cells x k t (suc n) h hk hn e =
      ap₂ ◌∷◌ (store_ne cells (slot k h) (slot k t) x (rw e (slot-ne k t n hk hn)))
        (window-store cells x k ((t + 1) % u32_mod) n h hk (omega arith) (omega arith))

  push_full : (k : ℕ) (r : Ring A) (x : A) → size r ≡ capacity k → push k r x ≡ (false, r)
  unfolding push
  push_full k r x e = rw (==_self (size r) (capacity k) e) refl

  push_ok :
      (k : ℕ) (r : Ring A) (x : A)
      → size r ≢ capacity k
      → push k r x ≡ (
        true,
        record r { head = (r.head + 1) % u32_mod; cells = store r.cells (slot k r.head) x },
      )
  unfolding push
  push_ok k r x h = rw (==_ne (size r) (capacity k) h) refl

  -- One more entry, and one less, whether or not a counter wraps.
  size_up :
      (k : ℕ) (r : Ring A) (f : ℕ → A)
      → IsValid k r
      → size r ≢ capacity k
      → size (record r { head = (r.head + 1) % u32_mod; cells = f }) ≡ suc (size r)
  unfolding size
  size_up k r f v h = omega (arith, capacity-le k v.power)

  head-eq-tail-add-size : (k : ℕ) (r : Ring A) → IsValid k r → r.head ≡ (r.tail + size r) % u32_mod
  unfolding size
  head-eq-tail-add-size k r v = omega arith

  -- `push` is the bounded queue's `enqueue` on the entries held, oldest first: it refuses exactly
  -- when `N` entries are held, and a wrap of the 32-bit counters changes nothing.
  pub push_refines :
      (k : ℕ) {r : Ring A} (x : A)
      → IsValid k r
      → let (b, r') = push k r x in (b, contents k r') ≡ enqueue (capacity k) (contents k r) x
  unfolding enqueue
  push_refines k {r} x v = elim (ℕ_discrete (size r) (capacity k)) [
    | yes e ↦ rw (push_full k r x e, length-window, ==_self (size r) (capacity k) e) refl
    | no h ↦
        rw (push_ok k r x h, length-window, ==_ne (size r) (capacity k) h, size_up k r _ v h)
          (ap (λ q. (true, q))
            (window-store r.cells x k r.tail (size r) r.head v.power (omega (arith, v.within))
              (head-eq-tail-add-size k r v)))
  ]
