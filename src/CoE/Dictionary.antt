-- ===== src/CoE/Dictionary.antt =====
-- The object dictionary that the SDO server reads and writes: lib/include/kickcat/CoE/OD.h and
-- findObject of lib/src/CoE/OD.cc. The callbacks of an entry belong to the application: each is a
-- function from the access and the data of the entry to the data it leaves.
use kick_cat.Base.{
  ℕ, zero, suc, ◌+◌, ◌/◌, Bool, not, bit_and, ◌==◌, if◌then◌else◌, List, [], ◌∷◌, Option, none,
  some,
}

-- `data` without a backing storage is empty.
pub record Entry : Type 0 where
  pub subindex : ℕ
  pub bitlen : ℕ
  pub bitoff : ℕ
  pub access : ℕ
  pub dtype : ℕ
  pub description : List ℕ
  pub bytes : List ℕ
  pub before_access : List (ℕ → List ℕ → List ℕ)
  pub after_access : List (ℕ → List ℕ → List ℕ)

pub record Object : Type 0 where
  pub index : ℕ
  pub code : ℕ
  pub name : List ℕ
  pub entries : List Entry

abbrev pub Dictionary : Type 0
Dictionary = List Object

-- CoE::Access
abbrev pub read_access : ℕ
read_access = 0x07

abbrev pub write_access : ℕ
write_access = 0x38

abbrev pub has_access : ℕ → ℕ → Bool
has_access access mask = not (bit_and access mask == 0)

-- `(bitlen + 7) / 8`: entries of less than a byte occupy one.
abbrev pub byte_size : Entry → ℕ
byte_size e = (e.bitlen + 7) / 8

-- The `for` over the callbacks.
abbrev pub run_hooks : List (ℕ → List ℕ → List ℕ) → ℕ → List ℕ → List ℕ
run_hooks [] access bytes = bytes
run_hooks (f ∷ fs) access bytes = run_hooks fs access (f access bytes)

unfoldable pub before_hooks : ℕ → Entry → Entry
before_hooks access e = record e { bytes = run_hooks e.before_access access e.bytes }

unfoldable pub after_hooks : ℕ → Entry → Entry
after_hooks access e = record e { bytes = run_hooks e.after_access access e.bytes }

-- The `i`-th element, if there is one, and the list with it replaced.
module _ {ℓ} {A : Type ℓ} where
  abbrev pub get_elem? : List A → ℕ → Option A
  get_elem? [] i = none
  get_elem? (x ∷ xs) zero = some x
  get_elem? (x ∷ xs) (suc i) = get_elem? xs i

  abbrev pub modify : ℕ → (A → A) → List A → List A
  modify i f [] = []
  modify zero f (x ∷ xs) = f x ∷ xs
  modify (suc i) f (x ∷ xs) = x ∷ modify i f xs

-- Where an entry stands: the position of the object and the position in it. It stands for the
-- pointer that the code keeps.
pub record Place : Type 0 where
  pub object : ℕ
  pub entry : ℕ

-- The two pointers that `findObject` returns.
pub data Found : Type 0 where
  no_object : Found
  no_entry : ℕ → Object → Found
  found : Place → Object → Entry → Found

pub find_entry : ℕ → Object → List Entry → ℕ → ℕ → Found
find_entry i o [] j subindex = no_entry i o
find_entry i o (e ∷ es) j subindex =
    let rest = find_entry i o es (suc j) subindex in
    if e.subindex == subindex then found (record { object = i; entry = j }) o e else rest

pub find_from : ℕ → Dictionary → ℕ → ℕ → Found
find_from i [] index subindex = no_object
find_from i (o ∷ os) index subindex =
    let rest = find_from (suc i) os index subindex in
    if o.index == index then find_entry i o o.entries 0 subindex else rest

unfoldable pub find_object : Dictionary → ℕ → ℕ → Found
unfolding find_from find_entry
find_object dict index subindex = find_from 0 dict index subindex

abbrev pub entries_of : Option Object → List Entry
entries_of none = []
entries_of (some o) = o.entries

-- Through the pointer: the entry, and the dictionary after a change of it.
abbrev pub entry_at : Dictionary → Place → Option Entry
entry_at dict p = get_elem? (entries_of (get_elem? dict p.object)) p.entry

abbrev pub update_entry : Place → (Entry → Entry) → Dictionary → Dictionary
update_entry p f dict =
    modify p.object (λ o. record o { entries = modify p.entry f o.entries }) dict
