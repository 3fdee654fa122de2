-- ===== src/Consumer/ProcessQueue/Sound.antt =====
-- The two maps of a ProcessQueue, kept apart: what one entry that moves does to them, and what the
-- loops do.
use test.Prelude.{
  ℕ, zero, suc, ◌+◌, ◌≡◌, refl, ◌⊎◌, inl, inr, none, some, List, [], ◌∷◌, arith, length,
  Option-cases,
}
use test.Prelude.Int.{ℤ}
use test.SortedMap.{Map, lookup, insert, erase, size, IsOrdered}
use test.SortedMap.Keys.{ℤ_order, eq_of_cmp_ℤ}
use test.SortedMap.Laws.{
  IsOrdered-insert, IsOrdered-erase, size-insert_fresh, size-erase_present, lookup-insert,
  lookup-erase_self, lookup-Above, lookup-first_entry, found-erase,
}
use test.Message.MessageExt.{MessageExt}
use test.Consumer.ProcessQueue.{put_all, erase_all, restore, take_loop}
use test.Consumer.ProcessQueue.Moves.{IsKeyed}

-- No offset is in both maps.
abbrev pub Apart : Map ℤ MessageExt → Map ℤ MessageExt → Type 0
Apart a b = (k : ℤ) → (lookup k a ≡ none) ⊎ (lookup k b ≡ none)

-- Ordered by offset, keyed by the offsets of the messages, and apart.
pub record Sound (a b : Map ℤ MessageExt) : Type 0 where
  pub ordered : IsOrdered a
  pub ordered_temp : IsOrdered b
  pub keyed : IsKeyed a
  pub keyed_temp : IsKeyed b
  pub apart : Apart a b

Apart-swap : (a b : Map ℤ MessageExt) → Apart a b → Apart b a
Apart-swap a b h k = ground (arith, h k)

Sound-swap : (a b : Map ℤ MessageExt) → Sound a b → Sound b a
Sound-swap a b s = record {
  ordered = s.ordered_temp;
  ordered_temp = s.ordered;
  keyed = s.keyed_temp;
  keyed_temp = s.keyed;
  apart = Apart-swap a b s.apart;
}

IsKeyed-insert :
    (k : ℤ) (m : MessageExt) (a : Map ℤ MessageExt)
    → k ≡ m.queue_offset
    → IsKeyed a
    → IsKeyed (insert k m a)
unfolding insert
IsKeyed-insert k m [] e h = (e, tt)
IsKeyed-insert k m ((j, w) ∷ a) e h = ground (arith, IsKeyed-insert k m a e h.1, eq_of_cmp_ℤ k j)

IsKeyed-erase : (k : ℤ) (a : Map ℤ MessageExt) → IsKeyed a → IsKeyed (erase k a)
unfolding erase
IsKeyed-erase k [] h = tt
IsKeyed-erase k ((j, w) ∷ a) h = ground (arith, IsKeyed-erase k a h.1)

Apart-insert :
    (k : ℤ) (m : MessageExt) (a b : Map ℤ MessageExt)
    → lookup k b ≡ none
    → Apart a b
    → Apart (insert k m a) b
Apart-insert k m a b e h j = ground (arith, lookup-insert k j m a, h j, eq_of_cmp_ℤ j k)

absent-erase :
    (k j : ℤ) (a : Map ℤ MessageExt) → IsOrdered a → lookup j a ≡ none → lookup j (erase k a) ≡ none
absent-erase k j a h e = elim (Option-cases (lookup j (erase k a))) [
  | inl gone ↦ gone
  | inr (v, f) ↦ absurd (cc (found-erase k j v a h f))
]

pub Sound-insert :
    (k : ℤ) (m : MessageExt) (a b : Map ℤ MessageExt)
    → k ≡ m.queue_offset
    → lookup k b ≡ none
    → Sound a b
    → Sound (insert k m a) b
Sound-insert k m a b e f s = record {
  ordered = IsOrdered-insert k m a s.ordered;
  ordered_temp = s.ordered_temp;
  keyed = IsKeyed-insert k m a e s.keyed;
  keyed_temp = s.keyed_temp;
  apart = Apart-insert k m a b f s.apart;
}

pub Sound-erase : (k : ℤ) (a b : Map ℤ MessageExt) → Sound a b → Sound (erase k a) b
Sound-erase k a b s = record {
  ordered = IsOrdered-erase k a s.ordered;
  ordered_temp = s.ordered_temp;
  keyed = IsKeyed-erase k a s.keyed;
  keyed_temp = s.keyed_temp;
  apart = λ j. ground (arith, s.apart j, absent-erase k j a s.ordered);
}

absent-tail :
    (k j : ℤ) (m : MessageExt) (a : Map ℤ MessageExt)
    → IsOrdered ((k, m) ∷ a)
    → lookup j ((k, m) ∷ a) ≡ none
    → lookup j a ≡ none
unfolding lookup
absent-tail k j m a h e = ground (arith)

Sound-tail : (k : ℤ) (m : MessageExt) (a b : Map ℤ MessageExt) → Sound ((k, m) ∷ a) b → Sound a b
Sound-tail k m a b s = record {
  ordered = s.ordered.1;
  ordered_temp = s.ordered_temp;
  keyed = s.keyed.1;
  keyed_temp = s.keyed_temp;
  apart = λ j. ground (arith, s.apart j, absent-tail k j m a s.ordered);
}

-- The first entry of one map goes to the other.
Sound-move :
    (k : ℤ) (m : MessageExt) (a b : Map ℤ MessageExt)
    → Sound ((k, m) ∷ a) b
    → Sound a (insert k m b)
Sound-move k m a b s = Sound-swap (insert k m b) a (
    Sound-insert k m b a s.keyed.0 (lookup-Above k a s.ordered.0)
      (Sound-swap a b (Sound-tail k m a b s)))

-- The first key of one map is not in the other.
first_absent :
    (k : ℤ) (m : MessageExt) (a b : Map ℤ MessageExt) → Apart ((k, m) ∷ a) b → lookup k b ≡ none
first_absent k m a b h = ground (arith, h k, lookup-first_entry k m a)

pub take_loop-Sound :
    (n : ℕ) (a b : Map ℤ MessageExt)
    → Sound a b
    → Sound (take_loop n a b).tree (take_loop n a b).temp
unfolding take_loop
take_loop-Sound zero a b s = s
take_loop-Sound (suc n) [] b s = s
take_loop-Sound (suc n) ((k, m) ∷ a) b s = take_loop-Sound n a (insert k m b) (Sound-move k m a b s)

pub size-take_loop :
    (n : ℕ) (a b : Map ℤ MessageExt)
    → Sound a b
    → size (take_loop n a b).tree + size (take_loop n a b).temp ≡ size a + size b
unfolding take_loop
size-take_loop zero a b s = refl
size-take_loop (suc n) [] b s = refl
size-take_loop (suc n) ((k, m) ∷ a) b s = omega (
  arith,
  size-take_loop n a (insert k m b) (Sound-move k m a b s),
  size-insert_fresh k m b (first_absent k m a b s.apart),
)

pub restore-Sound : (es a : Map ℤ MessageExt) → Sound a es → Sound (restore es a) []
unfolding restore
restore-Sound [] a s = s
restore-Sound ((k, m) ∷ es) a s =
    restore-Sound es (insert k m a)
      (Sound-swap es (insert k m a) (Sound-move k m es a (Sound-swap a ((k, m) ∷ es) s)))

pub size-restore : (es a : Map ℤ MessageExt) → Sound a es → size (restore es a) ≡ size a + size es
unfolding restore
size-restore [] a s = omega arith
size-restore ((k, m) ∷ es) a s = omega (
  arith,
  size-restore es (insert k m a)
      (Sound-swap es (insert k m a) (Sound-move k m es a (Sound-swap a ((k, m) ∷ es) s))),
  size-insert_fresh k m a (first_absent k m es a (Apart-swap a ((k, m) ∷ es) s.apart)),
)

-- What a caller puts: messages whose offsets the queue does not hold, each offset once.
abbrev pub Fresh : List MessageExt → Map ℤ MessageExt → Map ℤ MessageExt → Type 0
Fresh [] a b = Unit {0}
Fresh (m ∷ ms) a b =
    (lookup m.queue_offset a ≡ none)
    × (lookup m.queue_offset b ≡ none)
    × Fresh ms (insert m.queue_offset m a) b

-- What a caller removes: messages that the map holds, each once.
abbrev pub Held : List MessageExt → Map ℤ MessageExt → Type 0
Held [] a = Unit {0}
Held (m ∷ ms) a = (lookup m.queue_offset a ≡ some m) × Held ms (erase m.queue_offset a)

pub put_all-Sound :
    (ms : List MessageExt) (a b : Map ℤ MessageExt)
    → Fresh ms a b
    → Sound a b
    → Sound (put_all ms a) b
unfolding put_all
put_all-Sound [] a b f s = s
put_all-Sound (m ∷ ms) a b f s =
    put_all-Sound ms (insert m.queue_offset m a) b f.2
      (Sound-insert m.queue_offset m a b refl f.1 s)

pub size-put_all :
    (ms : List MessageExt) (a b : Map ℤ MessageExt)
    → Fresh ms a b
    → size (put_all ms a) ≡ size a + length ms
unfolding put_all
size-put_all [] a b f = omega arith
size-put_all (m ∷ ms) a b f = omega (
  arith,
  size-put_all ms (insert m.queue_offset m a) b f.2,
  size-insert_fresh m.queue_offset m a f.0,
)

pub erase_all-Sound :
    (ms : List MessageExt) (a b : Map ℤ MessageExt) → Sound a b → Sound (erase_all ms a) b
unfolding erase_all
erase_all-Sound [] a b s = s
erase_all-Sound (m ∷ ms) a b s =
    erase_all-Sound ms (erase m.queue_offset a) b (Sound-erase m.queue_offset a b s)

pub size-erase_all :
    (ms : List MessageExt) (a : Map ℤ MessageExt)
    → Held ms a
    → size (erase_all ms a) + length ms ≡ size a
unfolding erase_all
size-erase_all [] a h = omega arith
size-erase_all (m ∷ ms) a h = omega (
  arith,
  size-erase_all ms (erase m.queue_offset a) h.1,
  size-erase_present m.queue_offset m a h.0,
)

-- A message of the second map goes back to the first.
pub Sound-back :
    (m : MessageExt) (a b : Map ℤ MessageExt)
    → Sound a b
    → Sound (insert m.queue_offset m a) (erase m.queue_offset b)
Sound-back m a b s =
    Sound-insert m.queue_offset m a (erase m.queue_offset b) refl
      (lookup-erase_self m.queue_offset b s.ordered_temp)
      (Sound-swap (erase m.queue_offset b) a (Sound-erase m.queue_offset b a (Sound-swap a b s)))

pub size-back :
    (m : MessageExt) (a b : Map ℤ MessageExt)
    → Sound a b
    → lookup m.queue_offset b ≡ some m
    → size (insert m.queue_offset m a) + size (erase m.queue_offset b) ≡ size a + size b
size-back m a b s h = omega (
  arith,
  size-insert_fresh m.queue_offset m a (held_apart m.queue_offset m a b s.apart h),
  size-erase_present m.queue_offset m b h,
)
  where
    held_apart :
        (k : ℤ) (m : MessageExt) (a b : Map ℤ MessageExt)
        → Apart a b
        → lookup k b ≡ some m
        → lookup k a ≡ none
    held_apart k m a b f e = ground (arith, f k)

pub Sound-clear : (a b : Map ℤ MessageExt) → Sound a b → Sound a []
unfolding lookup
Sound-clear a b s = record {
  ordered = s.ordered;
  ordered_temp = tt;
  keyed = s.keyed;
  keyed_temp = tt;
  apart = λ k. inr refl;
}

pub Sound-empty : Sound [] []
unfolding lookup
Sound-empty = record {
  ordered = tt;
  ordered_temp = tt;
  keyed = tt;
  keyed_temp = tt;
  apart = λ k. inl refl;
}
