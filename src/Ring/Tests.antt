-- ===== src/Ring/Tests.antt =====
-- The ring of lib/include/kickcat/Ring.h on concrete entries, with counters about to wrap.
use kick_cat.Base.{ℕ, ◌+◌, ◌-◌, ◌≡◌, refl, arith, [], ◌∷◌}
use kick_cat.Ring.{Ring, u32_mod, size, push}
use kick_cat.Ring.Inv.{IsValid}
use kick_cat.Ring.Refine.{contents, enqueue, push_refines}

-- Two entries, 7 and 8, in a ring of four, the next at counter 0.
abbrev wrapping : Ring ℕ
wrapping = record { head = 0; tail = u32_mod - 2; cells = λ i. i + 5 }

wrapping-IsValid : IsValid 2 wrapping
unfolding size
wrapping-IsValid = omega arith

contents-wrapping : contents 2 wrapping ≡ 7 ∷ 8 ∷ []
unfolding size
contents-wrapping = refl

pushed : contents 2 (push 2 wrapping 9).1 ≡ 7 ∷ 8 ∷ 9 ∷ []
unfolding push
pushed = refl

push_refines_example :
    let (b, r) = push 2 wrapping 9 in (b, contents 2 r) ≡ enqueue 4 (contents 2 wrapping) 9
push_refines_example = push_refines 2 9 wrapping-IsValid
