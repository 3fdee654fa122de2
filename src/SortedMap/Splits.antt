-- ===== src/SortedMap/Splits.antt =====
-- Ordered maps cut in two: where an entry between the parts goes, and what their order says.
use test.Prelude.{none, ◌≡◌, refl, subst, append-nil, ◌++◌, [], ◌∷◌, arith, Ordering}
use test.SortedMap.Ordered.{Order}
use test.SortedMap.{Map, lookup, insert, Above, IsOrdered}

module _ {ℓ κ} {K : Type ℓ} {V : Type κ} ⦃o : Order K⦄ where
  -- Every key of `m` lies below `k`.
  abbrev pub Below : K → Map K V → Type 0
  Below k [] = Unit {0}
  Below k ((j, w) ∷ m) = (o.cmp j k ≡ Ordering.lt) × Below k m

  pub Above-append_right : (k : K) (m n : Map K V) → Above k (m ++ n) → Above k n
  Above-append_right k [] n h = h
  Above-append_right k ((j, w) ∷ m) n h = Above-append_right k m n h.1

  Above-middle :
      (j k : K) (v : V) (m n : Map K V) → Above j (m ++ (k, v) ∷ n) → o.cmp j k ≡ Ordering.lt
  Above-middle j k v m n h = (Above-append_right j m ((k, v) ∷ n) h).0

  pub IsOrdered-append_right : (m n : Map K V) → IsOrdered (m ++ n) → IsOrdered n
  IsOrdered-append_right [] n h = h
  IsOrdered-append_right (e ∷ m) n h = IsOrdered-append_right m n h.1

  Above-append_left : (k : K) (m n : Map K V) → Above k (m ++ n) → Above k m
  Above-append_left k [] n h = tt
  Above-append_left k ((j, w) ∷ m) n h = (h.0, Above-append_left k m n h.1)

  pub IsOrdered-append_left : (m n : Map K V) → IsOrdered (m ++ n) → IsOrdered m
  IsOrdered-append_left [] n h = tt
  IsOrdered-append_left ((j, w) ∷ m) n h =
      (Above-append_left j m n h.0, IsOrdered-append_left m n h.1)

  pub Below-middle : (k : K) (v : V) (m n : Map K V) → IsOrdered (m ++ (k, v) ∷ n) → Below k m
  Below-middle k v [] n h = tt
  Below-middle k v ((j, w) ∷ m) n h = (Above-middle j k v m n h.0, Below-middle k v m n h.1)

  pub insert-between :
      (k : K) (v : V) (m n : Map K V)
      → Below k m
      → Above k n
      → insert k v (m ++ n) ≡ m ++ (k, v) ∷ n
  unfolding insert
  insert-between k v [] [] b a = refl
  insert-between k v [] ((j, w) ∷ n) b a = ground arith
  insert-between k v ((j, w) ∷ m) n b a = ground (arith, insert-between k v m n b.1 a, flip j k b.0)
    where
      flip : (j k : K) → o.cmp j k ≡ Ordering.lt → o.cmp k j ≡ Ordering.gt
      flip j k h = ground (arith, o.eq_of_cmp k j, o.cmp_self j, o.cmp_trans j k j)

  -- The parts of a cut have no key in common with what lies above the cut.
  pub Above-of-Below : (k : K) (v : V) (m n : Map K V) → IsOrdered (m ++ (k, v) ∷ n) → Above k n
  Above-of-Below k v m n h = (IsOrdered-append_right m ((k, v) ∷ n) h).0

  pub insert-last : (k : K) (v : V) (m : Map K V) → Below k m → insert k v m ≡ m ++ (k, v) ∷ []
  insert-last k v m b =
      subst (λ t. insert k v t ≡ m ++ (k, v) ∷ []) (append-nil m) (insert-between k v m [] b tt)

  pub lookup-Below : (k : K) (m : Map K V) → Below k m → lookup k m ≡ none
  unfolding lookup
  lookup-Below k [] b = refl
  lookup-Below k ((j, w) ∷ m) b =
      ground (arith, lookup-Below k m b.1, o.eq_of_cmp k j, o.cmp_self j)
