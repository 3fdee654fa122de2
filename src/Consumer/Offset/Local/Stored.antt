-- ===== src/Consumer/Offset/Local/Stored.antt =====
-- What the local store reads back from the file that it has written.
use test.Prelude.{
  ◌-◌, ◌^◌, ◌≡◌, ◌↔◌, ◌⊎◌, inl, inr, refl, ap, sym, ◌∙◌, Bytes, Bool, true, false, Option, none,
  some, [], ◌∷◌, ◌++◌, append_assoc, append-nil, subst, arith, if◌then◌else◌, Option-cases,
}
use test.Prelude.Int.{ℤ, pos, negsuc, ◌≤ℤ◌}
use test.SortedMap.{lookup, insert, IsOrdered, Above}
use test.SortedMap.Laws.{lookup-insert, lookup-insert_self, insert-insert, IsOrdered-insert}
use test.SortedMap.Splits.{Below, insert-last, lookup-Below, Below-middle}
use test.Message.MessageQueue.{MessageQueue, message_queue_order, eq_of_compare_to}
use test.Common.MixAll.{compare_and_increase_only, compare_and_increase_only-alone, larger}
use test.Consumer.Offset.Remote.{OffsetTable, QueueSet, update_offset, read_from_store, is_found}
use test.Prelude.Int.{minus_one}
use test.Consumer.Offset.Local.{
  found_in_store, decoded, read_file, Json, LocalFileOffsetStore, to_int, pairs_of, add_pairs,
  insert_new, local_update_offset, add_offsets, add_found, local_read_offset, read_local_file,
  local_persist_all,
}

-- Both offset stores update their tables alike.
pub local_update_offset-eq :
    (mq : MessageQueue) (offset : ℤ) (increase_only : Bool) (t : OffsetTable)
    → local_update_offset mq offset increase_only t ≡ update_offset mq offset increase_only t
unfolding local_update_offset update_offset
local_update_offset-eq mq offset inc t = elim (Option-cases (lookup mq t)) [
  | inl absent ↦ rw (absent, lookup-insert_self mq offset t) (again inc)
  | inr (c, present) ↦ rw (present, present) refl
]
  where
    same : larger offset offset ≡ offset
    same = ground arith

    again :
        (inc : Bool)
        → insert mq offset t ≡ (
            if inc
            then insert mq (compare_and_increase_only offset offset []).1 (insert mq offset t)
            else insert mq offset (insert mq offset t))
    again true =
        rw (compare_and_increase_only-alone offset offset, same)
          (sym (insert-insert mq offset offset t))
    again false = sym (insert-insert mq offset offset t)

-- The table with each offset cast to `int`.
abbrev pub ints : OffsetTable → OffsetTable
ints [] = []
ints ((mq, o) ∷ t) = (mq, to_int o) ∷ ints t

Above-ints : (k : MessageQueue) (t : OffsetTable) → Above k t → Above k (ints t)
Above-ints k [] h = tt
Above-ints k ((mq, o) ∷ t) h = (h.0, Above-ints k t h.1)

IsOrdered-ints : (t : OffsetTable) → IsOrdered t → IsOrdered (ints t)
IsOrdered-ints [] h = tt
IsOrdered-ints ((mq, o) ∷ t) h = (Above-ints mq t h.0, IsOrdered-ints t h.1)

inserted_last :
    (mq : MessageQueue) (o : ℤ) (acc : OffsetTable)
    → lookup mq acc ≡ none
    → insert mq o acc ≡ acc ++ (mq, o) ∷ []
    → insert_new (lookup mq acc) mq o acc ≡ acc ++ (mq, o) ∷ []
inserted_last mq o acc absent last = ap (λ f. insert_new f mq o acc) absent ∙ last

add_pairs-append :
    (t acc : OffsetTable) → IsOrdered (acc ++ ints t) → add_pairs (pairs_of t) acc ≡ acc ++ ints t
unfolding add_pairs pairs_of
add_pairs-append [] acc h = sym (append-nil acc)
add_pairs-append ((mq, o) ∷ t) acc h =
    ap (add_pairs (pairs_of t)) step
    ∙ add_pairs-append t (acc ++ (mq, to_int o) ∷ [])
        (subst (λ s. IsOrdered s) (sym (append_assoc acc ((mq, to_int o) ∷ []) (ints t))) h)
    ∙ append_assoc acc ((mq, to_int o) ∷ []) (ints t)
  where
    below : Below mq acc
    below = Below-middle mq (to_int o) acc (ints t) h

    step : insert_new (lookup mq acc) mq (to_int o) acc ≡ acc ++ (mq, to_int o) ∷ []
    step =
        inserted_last mq (to_int o) acc (lookup-Below mq acc below)
          (insert-last mq (to_int o) acc below)

lookup-ints :
    (t : OffsetTable) (j : MessageQueue) (o : ℤ)
    → lookup j t ≡ some o
    → lookup j (ints t) ≡ some (to_int o)
unfolding lookup
lookup-ints [] j o e = cc
lookup-ints ((mq, v) ∷ t) j o e = ground (arith, lookup-ints t j o)

add_found-IsOrdered :
    (f : Option ℤ) (mq : MessageQueue) (w : OffsetTable)
    → IsOrdered w
    → IsOrdered (add_found f mq w)
add_found-IsOrdered none mq w h = h
add_found-IsOrdered (some o) mq w h = IsOrdered-insert mq o w h

add_offsets-IsOrdered :
    (mqs : QueueSet) (t w : OffsetTable) → IsOrdered w → IsOrdered (add_offsets mqs t w)
unfolding add_offsets
add_offsets-IsOrdered [] t w h = h
add_offsets-IsOrdered ((mq, u) ∷ mqs) t w h =
    add_offsets-IsOrdered mqs t _ (add_found-IsOrdered (lookup mq t) mq w h)

-- An offset that the wrapper has, or that a queue of the set has, is there in the end.
add_offsets-keeps :
    (mqs : QueueSet) (t w : OffsetTable) (j : MessageQueue) (o : ℤ)
    → lookup j t ≡ some o
    → lookup j w ≡ some o
    → lookup j (add_offsets mqs t w) ≡ some o
unfolding add_offsets
add_offsets-keeps [] t w j o e f = f
add_offsets-keeps ((mq, u) ∷ mqs) t w j o e f =
    add_offsets-keeps mqs t _ j o e (keeps (lookup mq t) refl)
  where
    keeps : (g : Option ℤ) → lookup mq t ≡ g → lookup j (add_found g mq w) ≡ some o
    keeps none h = f
    keeps (some v) h = ground (arith, lookup-insert mq j v w, eq_of_compare_to j mq)

found_cons :
    (mq j : MessageQueue) (u : Unit {0}) (mqs : QueueSet)
    → is_found (lookup j ((mq, u) ∷ mqs)) ≡ true
    → (j ≡ mq) ⊎ (is_found (lookup j mqs) ≡ true)
unfolding lookup
found_cons mq j u mqs m = ground (arith, eq_of_compare_to j mq)

added :
    (j mq : MessageQueue) (t w : OffsetTable) (o : ℤ)
    → j ≡ mq
    → lookup j t ≡ some o
    → lookup j (add_found (lookup mq t) mq w) ≡ some o
added j mq t w o e f =
    subst (λ k. lookup j (add_found (lookup k t) k w) ≡ some o) e (rw f (lookup-insert_self j o w))

add_offsets-found :
    (mqs : QueueSet) (t w : OffsetTable) (j : MessageQueue) (o : ℤ)
    → is_found (lookup j mqs) ≡ true
    → lookup j t ≡ some o
    → lookup j (add_offsets mqs t w) ≡ some o
unfolding add_offsets
add_offsets-found [] t w j o m e = absurd (none_found j m)
  where
    none_found : (j : MessageQueue) → is_found (lookup {V = Unit {0}} j []) ≡ true → ⊥
    none_found j m = unfold lookup in cc m
add_offsets-found ((mq, u) ∷ mqs) t w j o m e = elim (found_cons mq j u mqs m) [
  | inl here ↦ add_offsets-keeps mqs t _ j o e (added j mq t w o here e)
  | inr later ↦ add_offsets-found mqs t _ j o later e
]

-- The cast to `int` keeps exactly the numbers that an `int` holds.
pub to_int_iff : (z : ℤ) → (to_int z ≡ z) ↔ ((negsuc (2 ^ 31 - 1) ≤ℤ z) × (z ≤ℤ pos (2 ^ 31 - 1)))
unfolding to_int
to_int_iff z = ((λ h. ground arith), λ h. ground arith)

-- What a read of the store gives, from what it finds in the file.
read_found :
    (json : Json) (content : Bytes) (mq : MessageQueue) (o : ℤ) (s : LocalFileOffsetStore)
    (w : OffsetTable)
    → s.file ≡ some content
    → json.parse content ≡ some (pairs_of w)
    → IsOrdered (ints w)
    → lookup mq w ≡ some o
    → (read_local_file json mq s).0 ≡ to_int o
unfolding read_local_file
read_found json content mq o s w file parsed ordered found =
    ap
      (λ r.
        (if r.0
          then found_in_store json (lookup mq r.1) mq (record s { serialize_wrapper = r.1 })
          else (minus_one, record s { serialize_wrapper = r.1 })).0)
      read
    ∙ ap (λ f. (found_in_store json f mq (record s { serialize_wrapper = ints w })).0)
        (lookup-ints w mq o found)
  where
    read : read_file json s.file s.serialize_wrapper ≡ (true, ints w)
    read =
        ap (λ f. read_file json f s.serialize_wrapper) file
        ∙ ap (λ d. decoded json d s.serialize_wrapper) parsed
        ∙ ap (λ t. (true, t)) (add_pairs-append w [] ordered)

-- After persistAll has written its file, a read of a queue of the set from the store gives the offset
-- that the table had, cast to `int`: the offset itself exactly if it lies from -2^31 to 2^31 - 1.
pub local_read_offset-local_persist_all :
    (json : Json) (q : MessageQueue × Unit {0}) (rest : QueueSet) (s : LocalFileOffsetStore)
    (mq : MessageQueue) (offset : ℤ)
    → is_found (lookup mq (q ∷ rest)) ≡ true
    → lookup mq s.offset_table ≡ some offset
    → let r =
        local_read_offset json mq read_from_store (local_persist_all json true (q ∷ rest) s) in
      (r.0 ≡ to_int offset)
      × ((r.0 ≡ offset) ↔ ((negsuc (2 ^ 31 - 1) ≤ℤ offset) × (offset ≤ℤ pos (2 ^ 31 - 1))))
unfolding local_read_offset local_persist_all read_local_file
local_read_offset-local_persist_all json q rest s mq offset m e = (
  cast,
  subst (λ z. (z ≡ offset) ↔ ((negsuc (2 ^ 31 - 1) ≤ℤ offset) × (offset ≤ℤ pos (2 ^ 31 - 1))))
      (sym cast) (to_int_iff offset),
)
  where
    wrapper : OffsetTable
    wrapper = add_offsets (q ∷ rest) s.offset_table []

    cast :
        (local_read_offset json mq read_from_store (local_persist_all json true (q ∷ rest) s)).0
        ≡ to_int offset
    cast =
        read_found json (json.write (pairs_of wrapper)) mq offset
          (local_persist_all json true (q ∷ rest) s) wrapper refl
          (json.parse-write (pairs_of wrapper))
          (IsOrdered-ints wrapper (add_offsets-IsOrdered (q ∷ rest) s.offset_table [] tt))
          (add_offsets-found (q ∷ rest) s.offset_table [] mq offset m e)
