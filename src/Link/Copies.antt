-- ===== src/Link/Copies.antt =====
-- The bytes of a buffer after the copies that lib/master/src/Link.cc makes.
use kick_cat.Base.{
  ℕ, zero, suc, ◌+◌, ◌-◌, ◌≤◌, ◌<◌, ◌≡◌, refl, ap, ap₂, ◌∙◌, Bool, true, false, ◌&&◌, ltb, leb,
  if◌then◌else◌, List, [], ◌∷◌, arith, Bool-cases, inl, inr, bit_or,
}
use kick_cat.Base.Lists.{take, drop, blit, length, get_or, length-take, length-drop}
use kick_cat.Link.Merge.{copy_at, or_bytes, or_at}

get_or-drop : (k i : ℕ) (xs : List ℕ) → get_or (drop k xs) i 0 ≡ get_or xs (k + i) 0
get_or-drop zero i xs = let e : 0 + i ≡ i = omega arith in rw e refl
get_or-drop (suc k) i [] = refl
get_or-drop (suc k) i (x ∷ xs) =
    let e : suc k + i ≡ suc (k + i) = omega arith in rw e (get_or-drop k i xs)

pub get_or-take : (n i : ℕ) (xs : List ℕ) → i < n → get_or (take n xs) i 0 ≡ get_or xs i 0
get_or-take zero i xs h = absurd (omega arith)
get_or-take (suc n) i [] h = refl
get_or-take (suc n) zero (x ∷ xs) h = refl
get_or-take (suc n) (suc i) (x ∷ xs) h = get_or-take n i xs (omega arith)

abbrev pub within : ℕ → ℕ → ℕ → Bool
within off n i = leb off i && ltb i (off + n)

pub get_or-blit :
    (off i : ℕ) (src dst : List ℕ)
    → i < length dst
    → get_or (blit off src dst) i 0
      ≡ (if within off (length src) i then get_or src (i - off) 0 else get_or dst i 0)
get_or-blit off i src [] h = absurd (omega arith)
get_or-blit zero i [] (y ∷ ys) h = ground arith
get_or-blit zero zero (x ∷ xs) (y ∷ ys) h = ground arith
get_or-blit zero (suc i) (x ∷ xs) (y ∷ ys) h =
    let e : suc i - 0 ≡ suc i = omega arith in
    let e' : i - 0 ≡ i = omega arith in
    rw e (ground (arith, e', get_or-blit zero i xs ys (omega arith)))
get_or-blit (suc off) zero src (y ∷ ys) h = ground arith
get_or-blit (suc off) (suc i) src (y ∷ ys) h =
    let e : suc i - suc off ≡ i - off = omega arith in
    rw e (ground (arith, get_or-blit off i src ys (omega arith)))

-- A copy that stays inside of what it reads.
pub get_or-copy_at :
    (off n i : ℕ) (from to : List ℕ)
    → i < length to
    → off + n ≤ length from
    → get_or (copy_at off n from to) i 0
      ≡ (if within off n i then get_or from i 0 else get_or to i 0)
get_or-copy_at off n i from to h b =
    let len : length (take n (drop off from)) ≡ n =
      omega (arith, length-take n (drop off from), length-drop off from) in
    elim (Bool-cases (within off n i)) [
      | inl inside ↦
          let low : (off ≤ i) × (i < off + n) = ground arith in
          let e : off + (i - off) ≡ i = omega arith in
          get_or-blit off i (take n (drop off from)) to h
          ∙ rw (len, inside)
              (get_or-take n (i - off) (drop off from) (omega arith)
                ∙ get_or-drop off (i - off) from
                ∙ ap (λ k. get_or from k 0) e)
      | inr outside ↦ get_or-blit off i (take n (drop off from)) to h ∙ rw (len, outside) refl
    ]

get_or-or_bytes :
    (i : ℕ) (xs ys : List ℕ)
    → i < length xs
    → i < length ys
    → get_or (or_bytes xs ys) i 0 ≡ bit_or (get_or xs i 0) (get_or ys i 0)
unfolding or_bytes
get_or-or_bytes i [] ys h k = absurd (omega arith)
get_or-or_bytes i (x ∷ xs) [] h k = absurd (omega arith)
get_or-or_bytes zero (x ∷ xs) (y ∷ ys) h k = refl
get_or-or_bytes (suc i) (x ∷ xs) (y ∷ ys) h k = get_or-or_bytes i xs ys (omega arith) (omega arith)

length-or_bytes : (xs ys : List ℕ) → length (or_bytes xs ys) ≡ length xs
unfolding or_bytes
length-or_bytes [] ys = refl
length-or_bytes (x ∷ xs) [] = refl
length-or_bytes (x ∷ xs) (y ∷ ys) = ap suc (length-or_bytes xs ys)

pub get_or-or_at :
    (off n i : ℕ) (from to : List ℕ)
    → i < length to
    → off + n ≡ length from
    → length from ≡ length to
    → get_or (or_at off n from to) i 0
      ≡ (if ltb i off then get_or to i 0 else bit_or (get_or to i 0) (get_or from i 0))
get_or-or_at off n i from to h e k =
    let a = take n (drop off to) in
    let b = take n (drop off from) in
    let la : length a ≡ n = omega (arith, length-take n (drop off to), length-drop off to) in
    let lb : length b ≡ n = omega (arith, length-take n (drop off from), length-drop off from) in
    let l : length (or_bytes a b) ≡ n = length-or_bytes a b ∙ la in
    let at = get_or-blit off i (or_bytes a b) to h in
    elim (Bool-cases (ltb i off)) [
      | inl before ↦
          let out : within off n i ≡ false = ground arith in at ∙ rw (l, out, before) refl
      | inr behind ↦
          let inside : within off n i ≡ true = ground arith in
          let low : off ≤ i = ground arith in
          let back : off + (i - off) ≡ i = omega arith in
          let x : get_or a (i - off) 0 ≡ get_or to i 0 =
            get_or-take n (i - off) (drop off to) (omega arith)
            ∙ get_or-drop off (i - off) to
            ∙ ap (λ m. get_or to m 0) back in
          let y : get_or b (i - off) 0 ≡ get_or from i 0 =
            get_or-take n (i - off) (drop off from) (omega arith)
            ∙ get_or-drop off (i - off) from
            ∙ ap (λ m. get_or from m 0) back in
          at
          ∙ rw (l, inside, behind)
              (get_or-or_bytes (i - off) a b (omega (arith, la)) (omega (arith, lb))
                ∙ ap₂ bit_or x y)
    ]
