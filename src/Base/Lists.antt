-- ===== src/Base/Lists.antt =====
-- Lists of native length, and the byte copies that the code makes with memcpy.
use Prim.Native.Nat.{ℕ, zero, suc, ◌+◌, ◌-◌, ◌≤◌, min}
use mathlib.Core.Path.{◌≡◌, refl, ap}
use mathlib.Core.List.{List, [], ◌∷◌, ◌++◌}
use native.Mathlib.Omega.{arith}

module _ {ℓ} {A : Type ℓ} where
  abbrev pub length : List A → ℕ
  length [] = 0
  length (x ∷ xs) = suc (length xs)

  abbrev pub get_or : List A → ℕ → A → A
  get_or [] i d = d
  get_or (x ∷ xs) zero d = x
  get_or (x ∷ xs) (suc i) d = get_or xs i d

  abbrev pub take : ℕ → List A → List A
  take zero xs = []
  take (suc n) [] = []
  take (suc n) (x ∷ xs) = x ∷ take n xs

  abbrev pub drop : ℕ → List A → List A
  drop zero xs = xs
  drop (suc n) [] = []
  drop (suc n) (x ∷ xs) = drop n xs

  abbrev pub replicate : ℕ → A → List A
  replicate zero a = []
  replicate (suc n) a = a ∷ replicate n a

  pub length-append : (xs ys : List A) → length (xs ++ ys) ≡ length xs + length ys
  length-append [] ys = omega arith
  length-append (x ∷ xs) ys = omega (arith, length-append xs ys)

  pub length-take : (n : ℕ) (xs : List A) → length (take n xs) ≡ min n (length xs)
  length-take zero xs = omega arith
  length-take (suc n) [] = omega arith
  length-take (suc n) (x ∷ xs) = omega (arith, length-take n xs)

  pub length-drop : (n : ℕ) (xs : List A) → length (drop n xs) ≡ length xs - n
  length-drop zero xs = omega arith
  length-drop (suc n) [] = omega arith
  length-drop (suc n) (x ∷ xs) = omega (arith, length-drop n xs)

  pub length-replicate : (n : ℕ) (a : A) → length (replicate n a) ≡ n
  length-replicate zero a = refl
  length-replicate (suc n) a = ap suc (length-replicate n a)

module _ {ℓ} {A : Type ℓ} where
  -- memcpy (dst + off, src, length src): bytes that would fall past the end of dst are lost.
  abbrev pub blit : ℕ → List A → List A → List A
  blit off src [] = []
  blit zero [] (y ∷ ys) = y ∷ ys
  blit zero (x ∷ xs) (y ∷ ys) = x ∷ blit zero xs ys
  blit (suc off) src (y ∷ ys) = y ∷ blit off src ys

  pub length-blit : (off : ℕ) (src dst : List A) → length (blit off src dst) ≡ length dst
  length-blit zero src [] = refl
  length-blit zero [] (y ∷ ys) = refl
  length-blit zero (x ∷ xs) (y ∷ ys) = ap suc (length-blit zero xs ys)
  length-blit (suc off) src [] = refl
  length-blit (suc off) src (y ∷ ys) = ap suc (length-blit off src ys)

  -- A copy in bounds keeps what stands before it.
  pub take-blit : (off : ℕ) (src dst : List A) → take off (blit off src dst) ≡ take off dst
  take-blit zero src dst = refl
  take-blit (suc off) src [] = refl
  take-blit (suc off) src (y ∷ ys) = ap (λ r. y ∷ r) (take-blit off src ys)

  blit_start :
      (src dst : List A) → length src ≤ length dst → take (length src) (blit 0 src dst) ≡ src
  blit_start [] dst h = refl
  blit_start (x ∷ xs) [] h = absurd (omega arith)
  blit_start (x ∷ xs) (y ∷ ys) h = ap (λ r. x ∷ r) (blit_start xs ys (omega arith))

  -- After a copy in bounds, the prefix up to its end is the old prefix followed by the source.
  pub take-blit_end :
      (off n : ℕ) (src dst : List A)
      → n ≡ off + length src
      → n ≤ length dst
      → take n (blit off src dst) ≡ take off dst ++ src
  take-blit_end zero n src dst e h =
      let e' : n ≡ length src = omega arith in rw e' (blit_start src dst (omega arith))
  take-blit_end (suc off) zero src dst e h = absurd (omega arith)
  take-blit_end (suc off) (suc n) src [] e h = absurd (omega arith)
  take-blit_end (suc off) (suc n) src (y ∷ ys) e h =
      ap (λ r. y ∷ r) (take-blit_end off n src ys (omega arith) (omega arith))

  -- A copy that ends at `n` or before changes nothing from `n` on.
  pub drop-blit :
      (off n : ℕ) (src dst : List A) → off + length src ≤ n → drop n (blit off src dst) ≡ drop n dst
  drop-blit zero n src [] h = refl
  drop-blit zero n [] (y ∷ ys) h = refl
  drop-blit zero zero (x ∷ xs) (y ∷ ys) h = absurd (omega arith)
  drop-blit zero (suc n) (x ∷ xs) (y ∷ ys) h = drop-blit zero n xs ys (omega arith)
  drop-blit (suc off) zero src dst h = absurd (omega arith)
  drop-blit (suc off) (suc n) src [] h = refl
  drop-blit (suc off) (suc n) src (y ∷ ys) h = drop-blit off n src ys (omega arith)

  pub drop-blit_start :
      (off : ℕ) (src dst : List A) → drop off (blit off src dst) ≡ blit 0 src (drop off dst)
  drop-blit_start zero src dst = refl
  drop-blit_start (suc off) src [] = refl
  drop-blit_start (suc off) src (y ∷ ys) = drop-blit_start off src ys

  -- A copy of two parts that fit is a copy of the second behind the first.
  pub blit-append :
      (xs ys dst : List A)
      → length xs ≤ length dst
      → blit 0 (xs ++ ys) dst ≡ xs ++ blit 0 ys (drop (length xs) dst)
  blit-append [] ys dst h = refl
  blit-append (x ∷ xs) ys [] h = absurd (omega arith)
  blit-append (x ∷ xs) ys (z ∷ dst) h = ap (λ r. x ∷ r) (blit-append xs ys dst (omega arith))

  pub drop-drop : (n m : ℕ) (xs : List A) → drop m (drop n xs) ≡ drop (n + m) xs
  drop-drop zero m xs = let e : 0 + m ≡ m = omega arith in rw e refl
  drop-drop (suc n) zero [] = let e : suc n + 0 ≡ suc n = omega arith in rw e refl
  drop-drop (suc n) (suc m) [] = let e : suc n + suc m ≡ suc (n + suc m) = omega arith in rw e refl
  drop-drop (suc n) m (x ∷ xs) =
      let e : suc n + m ≡ suc (n + m) = omega arith in rw e (drop-drop n m xs)

  pub take-append-drop : (n : ℕ) (xs : List A) → take n xs ++ drop n xs ≡ xs
  take-append-drop zero xs = refl
  take-append-drop (suc n) [] = refl
  take-append-drop (suc n) (x ∷ xs) = ap (λ r. x ∷ r) (take-append-drop n xs)

  pub take_all : (n : ℕ) (xs : List A) → length xs ≤ n → take n xs ≡ xs
  take_all zero [] h = refl
  take_all zero (x ∷ xs) h = absurd (omega arith)
  take_all (suc n) [] h = refl
  take_all (suc n) (x ∷ xs) h = ap (λ r. x ∷ r) (take_all n xs (omega arith))

  -- The next `m` elements after the first `n` extend the prefix.
  pub take-add : (n m : ℕ) (xs : List A) → take n xs ++ take m (drop n xs) ≡ take (n + m) xs
  take-add zero m xs = let e : 0 + m ≡ m = omega arith in rw e refl
  take-add (suc n) zero [] = let e : suc n + 0 ≡ suc n = omega arith in rw e refl
  take-add (suc n) (suc m) [] = let e : suc n + suc m ≡ suc (n + suc m) = omega arith in rw e refl
  take-add (suc n) m (x ∷ xs) =
      let e : suc n + m ≡ suc (n + m) = omega arith in rw e (ap (λ r. x ∷ r) (take-add n m xs))

-- Every element has the property.
abbrev pub All {ℓ κ} : {A : Type ℓ} → (A → Type κ) → List A → Type κ
All P [] = Unit
All P (x ∷ xs) = P x × All P xs
