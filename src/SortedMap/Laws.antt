-- ===== src/SortedMap/Laws.antt =====
-- The laws of `std::map`. Those that hold of any list of entries do not ask for the order.
use test.Prelude.{
  suc, ◌≡◌, ◌≢◌, ◌⊎◌, inl, inr, refl, sym, ap, ◌∙◌, arith, Option, none, some, [], ◌∷◌, Ordering,
}
use test.SortedMap.Ordered.{Order}
use test.SortedMap.{Map, lookup, insert, erase, size, Above, IsOrdered}

module _ {ℓ κ} {K : Type ℓ} {V : Type κ} ⦃o : Order K⦄ where
  pub lookup-insert :
      (k j : K) (v : V) (m : Map K V)
      → lookup j (insert k v m) ≡ elim (o.cmp j k) [ Ordering.eq ↦ some v | _ ↦ lookup j m ]
  unfolding lookup insert
  lookup-insert k j v [] = refl
  lookup-insert k j v ((i, w) ∷ m) = ground (
    arith,
    lookup-insert k j v m,
    o.eq_of_cmp k i,
    o.eq_of_cmp j i,
    o.eq_of_cmp j k,
    o.cmp_self i,
  )

  pub lookup-insert_self : (k : K) (v : V) (m : Map K V) → lookup k (insert k v m) ≡ some v
  lookup-insert_self k v m = ground (arith, lookup-insert k k v m, o.cmp_self k)

  pub lookup-insert_ne :
      (k j : K) (v : V) (m : Map K V) → j ≢ k → lookup j (insert k v m) ≡ lookup j m
  lookup-insert_ne k j v m h = ground (arith, lookup-insert k j v m, o.eq_of_cmp j k)

  pub Above-insert :
      (i k : K) (v : V) (m : Map K V) → o.cmp i k ≡ Ordering.lt → Above i m → Above i (insert k v m)
  unfolding insert
  Above-insert i k v [] h a = (h, tt)
  Above-insert i k v ((j, w) ∷ m) h a = ground (arith, Above-insert i k v m)

  Above-trans : (i k : K) (m : Map K V) → o.cmp i k ≡ Ordering.lt → Above k m → Above i m
  Above-trans i k [] h a = tt
  Above-trans i k ((j, w) ∷ m) h a = (o.cmp_trans i k j h a.0, Above-trans i k m h a.1)

  pub IsOrdered-insert : (k : K) (v : V) (m : Map K V) → IsOrdered m → IsOrdered (insert k v m)
  unfolding insert
  IsOrdered-insert k v [] h = (tt, tt)
  IsOrdered-insert k v ((j, w) ∷ m) h = ground (
    arith,
    IsOrdered-insert k v m,
    Above-insert j k v m,
    Above-trans k j m,
    o.cmp_flip k j,
    o.eq_of_cmp k j,
  )

  Above-erase : (i k : K) (m : Map K V) → Above i m → Above i (erase k m)
  unfolding erase
  Above-erase i k [] a = tt
  Above-erase i k ((j, w) ∷ m) a = ground (arith, Above-erase i k m)

  pub IsOrdered-erase : (k : K) (m : Map K V) → IsOrdered m → IsOrdered (erase k m)
  unfolding erase
  IsOrdered-erase k [] h = tt
  IsOrdered-erase k ((j, w) ∷ m) h = ground (arith, IsOrdered-erase k m, Above-erase j k m)

  pub lookup-Above : (k : K) (m : Map K V) → Above k m → lookup k m ≡ none
  unfolding lookup
  lookup-Above k [] a = refl
  lookup-Above k ((j, w) ∷ m) a = ground (arith, lookup-Above k m)

  pub lookup-erase_self : (k : K) (m : Map K V) → IsOrdered m → lookup k (erase k m) ≡ none
  unfolding lookup erase
  lookup-erase_self k [] h = refl
  lookup-erase_self k ((j, w) ∷ m) h =
      ground (arith, lookup-erase_self k m, lookup-Above k m, o.eq_of_cmp k j)

  pub lookup-erase_ne : (k j : K) (m : Map K V) → j ≢ k → lookup j (erase k m) ≡ lookup j m
  unfolding lookup erase
  lookup-erase_ne k j [] h = refl
  lookup-erase_ne k j ((i, w) ∷ m) h =
      ground (arith, lookup-erase_ne k j m, o.eq_of_cmp k i, o.eq_of_cmp j i, o.cmp_self i)

  -- What an erased map has, the map had under another key.
  pub found-erased :
      (k j : K) (v : V) (m : Map K V)
      → IsOrdered m
      → lookup j (erase k m) ≡ some v
      → (j ≢ k) × (lookup j m ≡ some v)
  found-erased k j v m h e = (other, sym (lookup-erase_ne k j m other) ∙ e)
    where
      other : j ≢ k
      other q = cc (lookup-erase_self k m h, q, e)

  -- What a map has after an insertion was inserted, or the map had it under another key.
  pub found-inserted :
      (k j : K) (v w : V) (m : Map K V)
      → lookup j (insert k v m) ≡ some w
      → ((j ≡ k) × (w ≡ v)) ⊎ ((j ≢ k) × (lookup j m ≡ some w))
  found-inserted k j v w m h =
      ground (arith, lookup-insert k j v m, o.eq_of_cmp j k, o.cmp_self k, h)

  pub size-insert_fresh :
      (k : K) (v : V) (m : Map K V) → lookup k m ≡ none → size (insert k v m) ≡ suc (size m)
  unfolding lookup insert
  size-insert_fresh k v [] h = refl
  size-insert_fresh k v ((j, w) ∷ m) h = ground (arith, size-insert_fresh k v m)

  pub size-erase_present :
      (k : K) (v : V) (m : Map K V) → lookup k m ≡ some v → suc (size (erase k m)) ≡ size m
  unfolding lookup erase
  size-erase_present k v [] h = cc
  size-erase_present k v ((j, w) ∷ m) h = ground (arith, size-erase_present k v m)

  pub erase-absent : (k : K) (m : Map K V) → lookup k m ≡ none → erase k m ≡ m
  unfolding lookup erase
  erase-absent k [] h = refl
  erase-absent k ((j, w) ∷ m) h = ground (arith, erase-absent k m)

  -- A key that is found lies above every bound of the map.
  pub found-Above :
      (j k : K) (v : V) (m : Map K V) → Above j m → lookup k m ≡ some v → o.cmp j k ≡ Ordering.lt
  unfolding lookup
  found-Above j k v [] a e = cc
  found-Above j k v ((i, w) ∷ m) a e = ground (arith, found-Above j k v m, o.eq_of_cmp k i)

  pub lookup-rest : (j k : K) (w : V) (m : Map K V) → k ≢ j → lookup k ((j, w) ∷ m) ≡ lookup k m
  unfolding lookup
  lookup-rest j k w m h = ground (arith, o.eq_of_cmp k j, h)

  pub found-entry :
      (j k : K) (w v : V) (m : Map K V)
      → lookup k ((j, w) ∷ m) ≡ some v
      → ((k ≡ j) × (v ≡ w)) ⊎ (lookup k m ≡ some v)
  unfolding lookup
  found-entry j k w v m h = ground (arith, o.eq_of_cmp k j, h)

  pub found-other :
      (j k : K) (w v : V) (m : Map K V) → IsOrdered ((j, w) ∷ m) → lookup k m ≡ some v → k ≢ j
  found-other j k w v m h e same =
      ground (arith, found-Above j k v m h.0 e, o.cmp_self j, ap (o.cmp j) same)

  -- The first entry has the least key.
  pub found-least :
      (j k : K) (w v : V) (m : Map K V)
      → IsOrdered ((j, w) ∷ m)
      → lookup k ((j, w) ∷ m) ≡ some v
      → (k ≡ j) ⊎ (o.cmp j k ≡ Ordering.lt)
  unfolding lookup
  found-least j k w v m h e = elim (cmp_cases (o.cmp k j)) [
    | inl same ↦ inl (o.eq_of_cmp k j same)
    | inr other ↦ inr (found-Above j k v m h.0 (other (some w) (lookup k m) e))
  ]
    where
      cmp_cases :
          (c : Ordering)
          → (c ≡ Ordering.eq)
            ⊎ ((a b : Option V) → elim c [ Ordering.eq ↦ a | _ ↦ b ] ≡ some v → b ≡ some v)
      cmp_cases Ordering.lt = inr (λ a b h. h)
      cmp_cases Ordering.eq = inl refl
      cmp_cases Ordering.gt = inr (λ a b h. h)

  pub lookup-first_entry : (j : K) (w : V) (m : Map K V) → lookup j ((j, w) ∷ m) ≡ some w
  unfolding lookup
  lookup-first_entry j w m = ground (arith, o.cmp_self j)

  -- A key is bound to one value at most before an erasure only if it is after it.
  pub found-erase :
      (k j : K) (v : V) (m : Map K V)
      → IsOrdered m
      → lookup j (erase k m) ≡ some v
      → lookup j m ≡ some v
  unfolding lookup erase
  found-erase k j v [] h e = e
  found-erase k j v ((i, w) ∷ m) h e = ground (
    arith,
    found-erase k j v m h.1,
    o.eq_of_cmp j i,
    o.eq_of_cmp k i,
    found-Above i j v m h.0,
    o.cmp_self i,
  )

  -- The later of two insertions of a key counts.
  pub insert-insert : (k : K) (v w : V) (m : Map K V) → insert k v (insert k w m) ≡ insert k v m
  unfolding insert
  insert-insert k v w [] = ground (arith, o.cmp_self k, o.eq_of_cmp k k)
  insert-insert k v w ((j, u) ∷ m) =
      ground (arith, insert-insert k v w m, o.cmp_self k, o.eq_of_cmp k j)
