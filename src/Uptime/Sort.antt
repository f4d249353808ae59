-- ===== src/Uptime/Sort.antt =====
-- The sort of the logs: in order of time, and the same for logs of different times in any order.
use pb_launcher.Prelude.{
  List, [], ◌∷◌, Bool, ◌≡◌, ◌≢◌, arith, All, filter, Bool-cases, inl, inr, sym, ◌⊎◌,
}
use pb_launcher.Prelude.Int.{ℤ, ◌≤ℤ◌, ◌<ℤ◌, leb_ℤ, leb_ℤ→le, leb_ℤ→gt, eq_of_parts}
use pb_launcher.Uptime.{OperationLog, insert_log, sort_logs, within}
use pb_launcher.Uptime.Measure.{SortedFrom}

-- In order of time.
abbrev pub IsSorted : List OperationLog → Type 0
IsSorted [] = Unit
IsSorted (l ∷ ls) = SortedFrom l.created ls

IsSorted-of_from : (e : ℤ) (ls : List OperationLog) → SortedFrom e ls → IsSorted ls
IsSorted-of_from e [] h = tt
IsSorted-of_from e (l ∷ ls) h = h.1

SortedFrom-le : (e f : ℤ) (ls : List OperationLog) → e ≤ℤ f → SortedFrom f ls → SortedFrom e ls
SortedFrom-le e f [] le h = tt
SortedFrom-le e f (l ∷ ls) le h = (omega arith, h.1)

insert_log-SortedFrom :
    (e : ℤ) (l : OperationLog) (ls : List OperationLog)
    → e ≤ℤ l.created
    → SortedFrom e ls
    → SortedFrom e (insert_log l ls)
unfolding insert_log
insert_log-SortedFrom e l [] le h = (le, tt)
insert_log-SortedFrom e l (m ∷ ms) le h = elim (Bool-cases (leb_ℤ l.created m.created)) [
  | inl c ↦ rw c (le, (leb_ℤ→le l.created m.created c, h.1))
  | inr c ↦
      let gt = leb_ℤ→gt l.created m.created c in
      rw c (h.0, insert_log-SortedFrom m.created l ms (omega arith) h.1)
]

insert_log-IsSorted :
    (l : OperationLog) (ls : List OperationLog) → IsSorted ls → IsSorted (insert_log l ls)
unfolding insert_log
insert_log-IsSorted l [] h = tt
insert_log-IsSorted l (m ∷ ms) h = elim (Bool-cases (leb_ℤ l.created m.created)) [
  | inl c ↦ rw c (leb_ℤ→le l.created m.created c, h)
  | inr c ↦
      let gt = leb_ℤ→gt l.created m.created c in
      rw c (insert_log-SortedFrom m.created l ms (omega arith) h)
]

pub sort_logs-IsSorted : (ls : List OperationLog) → IsSorted (sort_logs ls)
unfolding sort_logs
sort_logs-IsSorted [] = tt
sort_logs-IsSorted (l ∷ ls) = insert_log-IsSorted l (sort_logs ls) (sort_logs-IsSorted ls)

module _ {ℓ} (P : OperationLog → Type ℓ) where
  insert_log-All :
      (l : OperationLog) (ls : List OperationLog) → P l → All P ls → All P (insert_log l ls)
  unfolding insert_log
  insert_log-All l [] p h = (p, tt)
  insert_log-All l (m ∷ ms) p h = elim (Bool-cases (leb_ℤ l.created m.created)) [
    | inl c ↦ rw c (p, h)
    | inr c ↦ rw c (h.0, insert_log-All l ms p h.1)
  ]

  pub sort_logs-All : (ls : List OperationLog) → All P ls → All P (sort_logs ls)
  unfolding sort_logs
  sort_logs-All [] h = tt
  sort_logs-All (l ∷ ls) h = insert_log-All l (sort_logs ls) h.0 (sort_logs-All ls h.1)

  pub filter-All :
      (p : OperationLog → Bool) (ls : List OperationLog) → All P ls → All P (filter p ls)
  filter-All p [] h = tt
  filter-All p (l ∷ ls) h = elim (Bool-cases (p l)) [
    | inl c ↦ rw c (h.0, filter-All p ls h.1)
    | inr c ↦ rw c (filter-All p ls h.1)
  ]

filter-keeps :
    (p : OperationLog → Bool) (e : ℤ) (ls : List OperationLog)
    → SortedFrom e ls
    → SortedFrom e (filter p ls)
filter-keeps p e [] h = tt
filter-keeps p e (l ∷ ls) h = elim (Bool-cases (p l)) [
  | inl c ↦ rw c (h.0, filter-keeps p l.created ls h.1)
  | inr c ↦ rw c (filter-keeps p e ls (SortedFrom-le e l.created ls h.0 h.1))
]

-- The logs of a period are in order of time from its start.
pub filter-SortedFrom :
    (start : ℤ) (ls : List OperationLog) → IsSorted ls → SortedFrom start (filter (within start) ls)
filter-SortedFrom start [] h = tt
filter-SortedFrom start (l ∷ ls) h = elim (Bool-cases (within start l)) [
  | inl c ↦ rw c (leb_ℤ→le start l.created c, filter-keeps (within start) l.created ls h)
  | inr c ↦ rw c (filter-SortedFrom start ls (IsSorted-of_from l.created ls h))
]

insert_log_comm_lt :
    (a b : OperationLog) (ls : List OperationLog)
    → a.created <ℤ b.created
    → insert_log a (insert_log b ls) ≡ insert_log b (insert_log a ls)
unfolding insert_log
insert_log_comm_lt a b [] h = ground arith
insert_log_comm_lt a b (l ∷ ls) h = ground (arith, insert_log_comm_lt a b ls h)

apart : (a b : ℤ) → a ≢ b → (a <ℤ b) ⊎ (b <ℤ a)
apart a b h = elim (Bool-cases (leb_ℤ a b)) [
  | inr c ↦ inr (leb_ℤ→gt a b c)
  | inl c ↦ elim (Bool-cases (leb_ℤ b a)) [
    | inr d ↦ inl (leb_ℤ→gt b a d)
    | inl d ↦
        let p = leb_ℤ→le a b c in
        let q = leb_ℤ→le b a d in absurd (h (eq_of_parts a b (omega arith)))
  ]
]

-- Two logs of different times go into a list in either order.
pub insert_log_comm :
    (a b : OperationLog) (ls : List OperationLog)
    → a.created ≢ b.created
    → insert_log a (insert_log b ls) ≡ insert_log b (insert_log a ls)
insert_log_comm a b ls h = elim (apart a.created b.created h) [
  | inl lt ↦ insert_log_comm_lt a b ls lt
  | inr gt ↦ sym (insert_log_comm_lt b a ls gt)
]
