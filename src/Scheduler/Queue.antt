-- ===== src/Scheduler/Queue.antt =====
-- src/c/scheduler.c: the queue in the order of the start times, and the search for a free one.
use iotech_c_utils.Common.{
  ℕ, zero, suc, ◌+◌, ◌%◌, ◌^◌, ◌<◌, ◌≤◌, ◌≡◌, refl, arith, Bool, true, false, not, ◌&&◌, ◌||◌, List,
  [], ◌∷◌, some, if◌then◌else◌, ◌==◌, ltb, leb, length, Bool-cases, inl, inr, ==_iff,
}
use iotech_c_utils.Scheduler.{Schedule, taken, free_start, insert_start, remove_start}

abbrev pub has : ℕ → List ℕ → Bool
has i [] = false
has i (j ∷ q) = i == j || has i q

abbrev pub AllAbove : (ℕ → Schedule) → ℕ → List ℕ → Type 0
AllAbove f t [] = Unit {0}
AllAbove f t (j ∷ q) = (t < (f j).start) × AllAbove f t q

-- Each start time is below those after it.
abbrev pub IsSorted : (ℕ → Schedule) → List ℕ → Type 0
IsSorted f [] = Unit {0}
IsSorted f (j ∷ q) = AllAbove f (f j).start q × IsSorted f q

-- The start times of the queue's schedules are the same.
abbrev pub SameStarts : (f g : ℕ → Schedule) → List ℕ → Type 0
SameStarts f g q = (j : ℕ) → has j q ≡ true → (g j).start ≡ (f j).start

AllAbove-later : (f : ℕ → Schedule) (t u : ℕ) (q : List ℕ) → t < u → AllAbove f u q → AllAbove f t q
AllAbove-later f t u [] h a = tt
AllAbove-later f t u (j ∷ q) h a = (omega arith, AllAbove-later f t u q h a.1)

AllAbove-has :
    (f : ℕ → Schedule) (t i : ℕ) (q : List ℕ) → AllAbove f t q → has i q ≡ true → t < (f i).start
AllAbove-has f t i [] a h = cc
AllAbove-has f t i (j ∷ q) a h = elim (Bool-cases (i == j)) [
  | inl e ↦ rw ((==_iff i j).0 e) a.0
  | inr e ↦ AllAbove-has f t i q a.1 (rw e at h)
]

tail_same : (f g : ℕ → Schedule) (j : ℕ) (q : List ℕ) → SameStarts f g (j ∷ q) → SameStarts f g q
tail_same f g j q same k h = same k (ground arith)

AllAbove-same :
    (f g : ℕ → Schedule) (t : ℕ) (q : List ℕ) → SameStarts f g q → AllAbove f t q → AllAbove g t q
AllAbove-same f g t [] same a = tt
AllAbove-same f g t (j ∷ q) same a =
    (rw (same j (ground arith)) a.0, AllAbove-same f g t q (tail_same f g j q same) a.1)

pub IsSorted-same :
    (f g : ℕ → Schedule) (q : List ℕ) → SameStarts f g q → IsSorted f q → IsSorted g q
IsSorted-same f g [] same s = tt
IsSorted-same f g (j ∷ q) same s = (
  rw (same j (ground arith)) (AllAbove-same f g (f j).start q (tail_same f g j q same) s.0),
  IsSorted-same f g q (tail_same f g j q same) s.1,
)

pub taken_same :
    (f g : ℕ → Schedule) (q : List ℕ) (t : ℕ) → SameStarts f g q → taken g q t ≡ taken f q t
taken_same f g [] t same = refl
taken_same f g (j ∷ q) t same =
    rw (same j (ground arith), taken_same f g q t (tail_same f g j q same))

pub has-insert_start :
    (f : ℕ → Schedule) (q : List ℕ) (i j : ℕ) → has j (insert_start f q i) ≡ (j == i || has j q)
has-insert_start f [] i j = refl
has-insert_start f (k ∷ q) i j = ground (arith, has-insert_start f q i j)

AllAbove-insert_start :
    (f : ℕ → Schedule) (t : ℕ) (q : List ℕ) (i : ℕ)
    → t < (f i).start
    → AllAbove f t q
    → AllAbove f t (insert_start f q i)
AllAbove-insert_start f t [] i h a = (h, tt)
AllAbove-insert_start f t (k ∷ q) i h a = elim (Bool-cases (ltb (f i).start (f k).start)) [
  | inl e ↦ rw e (h, a)
  | inr e ↦ rw e (a.0, AllAbove-insert_start f t q i h a.1)
]

pub insert_start-IsSorted :
    (f : ℕ → Schedule) (q : List ℕ) (i : ℕ)
    → IsSorted f q
    → taken f q (f i).start ≡ false
    → IsSorted f (insert_start f q i)
insert_start-IsSorted f [] i s h = (tt, tt)
insert_start-IsSorted f (k ∷ q) i s h = elim (Bool-cases (ltb (f i).start (f k).start)) [
  | inl e ↦
      let below : (f i).start < (f k).start = ground arith in
      rw e ((below, AllAbove-later f (f i).start (f k).start q below s.0), s)
  | inr e ↦
      let above : (f k).start < (f i).start = ground arith in
      rw e (
        AllAbove-insert_start f (f k).start q i above s.0,
        insert_start-IsSorted f q i s.1 (ground arith),
      )
]

pub has-remove_start :
    (f : ℕ → Schedule) (q : List ℕ) (i j : ℕ)
    → IsSorted f q
    → has i q ≡ true
    → has j (remove_start f q (f i).start) ≡ (not (j == i) && has j q)
has-remove_start f [] i j s h = cc
has-remove_start f (k ∷ q) i j s h = ground (
  arith,
  AllAbove-has f (f k).start i q s.0,
  AllAbove-has f (f k).start j q s.0,
  has-remove_start f q i j s.1,
)

AllAbove-remove_start :
    (f : ℕ → Schedule) (t u : ℕ) (q : List ℕ) → AllAbove f t q → AllAbove f t (remove_start f q u)
AllAbove-remove_start f t u [] a = tt
AllAbove-remove_start f t u (k ∷ q) a = elim (Bool-cases ((f k).start == u)) [
  | inl e ↦ rw e a.1
  | inr e ↦ rw e (a.0, AllAbove-remove_start f t u q a.1)
]

pub remove_start-IsSorted :
    (f : ℕ → Schedule) (q : List ℕ) (u : ℕ) → IsSorted f q → IsSorted f (remove_start f q u)
remove_start-IsSorted f [] u s = tt
remove_start-IsSorted f (k ∷ q) u s = elim (Bool-cases ((f k).start == u)) [
  | inl e ↦ rw e s.1
  | inr e ↦ rw e (AllAbove-remove_start f (f k).start u q s.0, remove_start-IsSorted f q u s.1)
]

-- The search ends at a time that is free.
pub free_start-taken :
    (fuel : ℕ) (f : ℕ → Schedule) (q : List ℕ) (t : ℕ) {u : ℕ}
    → free_start fuel f q t ≡ some u
    → taken f q u ≡ false
unfolding free_start
free_start-taken zero f q t e = cc
free_start-taken (suc fuel) f q t e = elim (Bool-cases (taken f q t)) [
  | inl h ↦ free_start-taken fuel f q ((t + 1) % 2 ^ 64) (rw h at e)
  | inr h ↦ ground arith
]

-- How many of the queue start at a time or later.
abbrev from : (ℕ → Schedule) → List ℕ → ℕ → ℕ
from f [] t = 0
from f (j ∷ q) t = (if leb t (f j).start then 1 else 0) + from f q t

from_later : (f : ℕ → Schedule) (q : List ℕ) (t : ℕ) → from f q (t + 1) ≤ from f q t
from_later f [] t = omega arith
from_later f (j ∷ q) t = ground (arith, from_later f q t)

from-taken :
    (f : ℕ → Schedule) (q : List ℕ) (t : ℕ) → taken f q t ≡ true → from f q (t + 1) < from f q t
from-taken f [] t h = cc
from-taken f (j ∷ q) t h = ground (arith, from_later f q t, from-taken f q t)

from-le-length : (f : ℕ → Schedule) (q : List ℕ) (t : ℕ) → from f q t ≤ length q
from-le-length f [] t = omega arith
from-le-length f (j ∷ q) t = ground (arith, from-le-length f q t)

free_start_finds :
    (fuel : ℕ) (f : ℕ → Schedule) (q : List ℕ) (t : ℕ)
    → from f q t < fuel
    → t + fuel < 2 ^ 64
    → (u : ℕ) × (free_start fuel f q t ≡ some u) × (t ≤ u) × (u < t + fuel)
unfolding free_start
free_start_finds zero f q t h w = absurd (omega arith)
free_start_finds (suc fuel) f q t h w = elim (Bool-cases (taken f q t)) [
  | inl e ↦
      let below = from-taken f q t e in
      let (u, d, l, b) = free_start_finds fuel f q (t + 1) (omega (arith, below)) (omega arith) in
      let same : (t + 1) % 2 ^ 64 ≡ t + 1 = omega arith in
      (u, rw (e, same) d, omega (arith, l), omega (arith, b))
  | inr e ↦ (t, rw e, omega arith, omega arith)
]

-- `iot_schedule_queue_add` finds a free start time from the schedule's own on, after at most as many
-- rounds as the queue is long, where the times do not reach 2 ^ 64.
pub free_start_total :
    (f : ℕ → Schedule) (q : List ℕ) (t : ℕ)
    → t + suc (length q) < 2 ^ 64
    → (u : ℕ) × (free_start (suc (length q)) f q t ≡ some u)
      × (taken f q u ≡ false)
      × (t ≤ u)
      × (u ≤ t + length q)
free_start_total f q t w =
    let (u, e, l, b) =
      free_start_finds (suc (length q)) f q t (omega (arith, from-le-length f q t)) w in
    (u, e, free_start-taken (suc (length q)) f q t e, l, omega (arith, b))
