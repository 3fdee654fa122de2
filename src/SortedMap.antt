-- ===== src/SortedMap.antt =====
-- `std::map`, as the client uses it: an association list in the order of its keys. The order of the
-- keys, `operator<` in the source, is the instance `Order`; `std::set` is a map to `Unit`.
pub mod Ordered
pub mod Keys
pub mod Laws
pub mod Splits
use Ordered.{Order}
use test.Prelude.{ℕ, zero, suc, ◌≡◌, Bool, true, false, Option, none, some, List, [], ◌∷◌, Ordering}

abbrev pub Map {ℓ κ} : Type ℓ → Type κ → Type (ℓ ⊔ κ)
Map K V = List (K × V)

module _ {ℓ κ} {K : Type ℓ} {V : Type κ} ⦃o : Order K⦄ where
  -- m.find(k)
  unfoldable pub lookup : K → Map K V → Option V
  lookup k [] = none
  lookup k ((j, v) ∷ m) = elim (o.cmp k j) [ Ordering.eq ↦ some v | _ ↦ lookup k m ]

  -- m[k] = v
  unfoldable pub insert : K → V → Map K V → Map K V
  insert k v [] = (k, v) ∷ []
  insert k v ((j, w) ∷ m) = elim (o.cmp k j) [
    | Ordering.lt ↦ (k, v) ∷ (j, w) ∷ m
    | Ordering.eq ↦ (j, v) ∷ m
    | Ordering.gt ↦ (j, w) ∷ insert k v m
  ]

  -- m.erase(k)
  unfoldable pub erase : K → Map K V → Map K V
  erase k [] = []
  erase k ((j, w) ∷ m) = elim (o.cmp k j) [ Ordering.eq ↦ m | _ ↦ (j, w) ∷ erase k m ]

  -- Every key of `m` lies above `k`.
  abbrev pub Above : K → Map K V → Type 0
  Above k [] = Unit {0}
  Above k ((j, w) ∷ m) = (o.cmp k j ≡ Ordering.lt) × Above k m

  -- The keys ascend, so they are distinct: what every `std::map` keeps.
  abbrev pub IsOrdered : Map K V → Type 0
  IsOrdered [] = Unit {0}
  IsOrdered ((j, w) ∷ m) = Above j m × IsOrdered m

module _ {ℓ κ} {K : Type ℓ} {V : Type κ} where
  -- m.size()
  abbrev pub size : Map K V → ℕ
  size [] = 0
  size (_ ∷ m) = suc (size m)

  -- *m.begin()
  abbrev pub first : Map K V → Option (K × V)
  first [] = none
  first (e ∷ m) = some e

  -- *(--m.end())
  unfoldable pub last : Map K V → Option (K × V)
  last [] = none
  last (e ∷ m) = elim (last m) [ none ↦ some e | some d ↦ some d ]

  -- m.empty()
  abbrev pub is_empty : Map K V → Bool
  is_empty [] = true
  is_empty (_ ∷ m) = false
