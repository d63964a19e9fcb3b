-- ===== src/CoE/Server/Lookup.antt =====
-- Writing through a pointer to an entry of the dictionary (lib/include/kickcat/CoE/OD.h).
use kick_cat.Base.{ℕ, zero, suc, ◌≡◌, refl, ap, ◌∙◌, List, [], ◌∷◌, Option, none, some}
use mathlib.Core.Option.{none-ne-some}
use kick_cat.CoE.Dictionary.{
  Entry, Object, Dictionary, get_elem?, modify, Place, entries_of, entry_at, update_entry,
}

module _ {ℓ} {A : Type ℓ} where
  pub get_elem?-modify :
      (i : ℕ) (f : A → A) (xs : List A) (x : A)
      → get_elem? xs i ≡ some x
      → get_elem? (modify i f xs) i ≡ some (f x)
  get_elem?-modify i f [] x h = cc
  get_elem?-modify zero f (y ∷ xs) x h = ap (λ o. elim o [ some v ↦ some (f v) | none ↦ none ]) h
  get_elem?-modify (suc i) f (y ∷ xs) x h = get_elem?-modify i f xs x h

pub entry_at-update :
    (p : Place) (f : Entry → Entry) (dict : Dictionary) (e : Entry)
    → entry_at dict p ≡ some e
    → entry_at (update_entry p f dict) p ≡ some (f e)
entry_at-update p f dict e h = at_object (get_elem? dict p.object) refl h
  where
    at_object :
        (o : Option Object)
        → get_elem? dict p.object ≡ o
        → get_elem? (entries_of o) p.entry ≡ some e
        → entry_at (update_entry p f dict) p ≡ some (f e)
    at_object none q k = absurd (none-ne-some e k)
    at_object (some o) q k =
        ap (λ r. get_elem? (entries_of r) p.entry)
          (get_elem?-modify p.object (λ v. record v { entries = modify p.entry f v.entries }) dict o
            q)
        ∙ get_elem?-modify p.entry f o.entries e k
