-- ===== src/Uptime/Measure.antt =====
-- The sweep over the logs against an independent description of the active time: the number of
-- milliseconds of the period at which the last log so far has the service on.
use mathlib.Core.Path.{ap₂}
use native.Mathlib.Nat.{zero-add}
use pb_launcher.Prelude.{
  ℕ, zero, suc, ◌+◌, ◌-◌, List, [], ◌∷◌, Bool, true, false, ◌≡◌, refl, sym, ap, ◌∙◌, arith, All,
  if◌then◌else◌,
}
use pb_launcher.Prelude.Int.{
  ℤ, pos, pos_part, neg_part, ◌+ℤ◌, ◌-ℤ◌, ◌≤ℤ◌, ◌<ℤ◌, leb_ℤ, int_laws, le→leb_ℤ, lt→leb_ℤ, ≤ℤ_refl,
  parts_of_eq,
}
use pb_launcher.Uptime.{OperationLog, next_state, sweep_step, sweep, close_sweep}

-- The state at a time, from a state before all logs.
unfoldable pub state_at : Bool → List OperationLog → ℤ → Bool
state_at active [] t = active
state_at active (l ∷ ls) t =
    state_at (if leb_ℤ l.created t then next_state active l else active) ls t

abbrev pub ms_of : Bool → ℕ
ms_of true = 1
ms_of false = 0

-- The number of active milliseconds among the `n` from `start` on.
unfoldable pub count_active : Bool → List OperationLog → ℤ → ℕ → ℕ
count_active active ls start zero = 0
count_active active ls start (suc n) =
    ms_of (state_at active ls start) + count_active active ls (start +ℤ pos 1) n

-- In order of time, and none before `e`.
abbrev pub SortedFrom : ℤ → List OperationLog → Type 0
SortedFrom e [] = Unit
SortedFrom e (l ∷ ls) = (e ≤ℤ l.created) × SortedFrom l.created ls

abbrev pub UpTo : ℤ → List OperationLog → Type 0
UpTo now = All (λ l. l.created ≤ℤ now)

pub gap : (a b : ℤ) → a ≤ℤ b → (k : ℕ) × (b ≡ a +ℤ pos k)
gap a b h = ((pos_part b + neg_part a) - (pos_part a + neg_part b), omega int_laws)

state_at_early :
    (a : Bool) (ls : List OperationLog) (e t : ℤ) → SortedFrom e ls → t <ℤ e → state_at a ls t ≡ a
unfolding state_at
state_at_early a [] e t h lt = refl
state_at_early a (l ∷ ls) e t h lt =
    rw (lt→leb_ℤ l.created t (omega arith)) (state_at_early a ls l.created t h.1 (omega arith))

count_early :
    (a : Bool) (ls : List OperationLog) (e s : ℤ) (k : ℕ)
    → SortedFrom e ls
    → (s +ℤ pos k) ≤ℤ e
    → count_active a ls s k ≡ (if a then k else 0)
unfolding count_active
count_early a ls e s zero h le = ground arith
count_early a ls e s (suc k) h le =
    rw
      (
        state_at_early a ls e s h (omega int_laws),
        count_early a ls e (s +ℤ pos 1) k h (omega int_laws),
      )
      (ground arith)

one_more : (s : ℤ) (k : ℕ) → (s +ℤ pos 1) +ℤ pos k ≡ s +ℤ pos (suc k)
one_more s k = omega int_laws

add_pos_zero : (s : ℤ) → s +ℤ pos 0 ≡ s
add_pos_zero s = omega int_laws

suc_add : (k m : ℕ) → suc k + m ≡ suc (k + m)
suc_add k m = omega arith

count-add :
    (a : Bool) (ls : List OperationLog) (s : ℤ) (k m : ℕ)
    → count_active a ls s (k + m) ≡ count_active a ls s k + count_active a ls (s +ℤ pos k) m
unfolding count_active
count-add a ls s zero m = rw (zero-add m, add_pos_zero s) (omega arith)
count-add a ls s (suc k) m =
    rw (suc_add k m, count-add a ls (s +ℤ pos 1) k m, one_more s k) (omega arith)

state_at_past :
    (a : Bool) (l : OperationLog) (ls : List OperationLog) (t : ℤ)
    → l.created ≤ℤ t
    → state_at a (l ∷ ls) t ≡ state_at (next_state a l) ls t
unfolding state_at
state_at_past a l ls t h = rw (le→leb_ℤ l.created t h)

count_past :
    (a : Bool) (l : OperationLog) (ls : List OperationLog) (s : ℤ) (n : ℕ)
    → l.created ≤ℤ s
    → count_active a (l ∷ ls) s n ≡ count_active (next_state a l) ls s n
unfolding count_active
count_past a l ls s zero h = refl
count_past a l ls s (suc n) h =
    rw (state_at_past a l ls s h, count_past a l ls (s +ℤ pos 1) n (omega int_laws))

-- The log at `l.created` cuts the period in two.
count_cut :
    (a : Bool) (l : OperationLog) (ls : List OperationLog) (s : ℤ) (k m : ℕ)
    → SortedFrom s (l ∷ ls)
    → l.created ≡ s +ℤ pos k
    → count_active a (l ∷ ls) s (k + m)
      ≡ (if a then k else 0) + count_active (next_state a l) ls l.created m
count_cut a l ls s k m h e =
    count-add a (l ∷ ls) s k m
    ∙ ap₂ (λ (x y : ℕ). x + y)
        (count_early a (l ∷ ls) l.created s k (≤ℤ_refl l.created, h.1)
          (omega (int_laws, parts_of_eq _ _ e)))
        (count_past a l ls (s +ℤ pos k) m (omega (int_laws, parts_of_eq _ _ e))
          ∙ ap (λ t. count_active (next_state a l) ls t m) (sym e))

join_cut :
    (a : Bool) (total s c : ℤ) (k x y : ℕ)
    → c ≡ s +ℤ pos k
    → y ≡ (if a then k else 0) + x
    → (if a then total +ℤ (c -ℤ s) else total) +ℤ pos x ≡ total +ℤ pos y
join_cut true total s c k x y e f = omega (int_laws, parts_of_eq _ _ e)
join_cut false total s c k x y e f = omega (int_laws, parts_of_eq _ _ e)

span : (s c now : ℤ) (k m n : ℕ) → c ≡ s +ℤ pos k → now ≡ c +ℤ pos m → now ≡ s +ℤ pos n → n ≡ k + m
span s c now k m n ek em e =
    omega (int_laws, parts_of_eq _ _ ek, parts_of_eq _ _ em, parts_of_eq _ _ e)

close_open :
    (a : Bool) (total s : ℤ) (n : ℕ)
    → (if a then total +ℤ ((s +ℤ pos n) -ℤ s) else total) ≡ total +ℤ pos (if a then n else 0)
close_open true total s n = omega int_laws
close_open false total s n = omega int_laws

-- What the loop adds for the logs of a period is the number of its active milliseconds.
pub sweep-count :
    (a : Bool) (total : ℤ) (s now : ℤ) (n : ℕ) (ls : List OperationLog)
    → SortedFrom s ls
    → UpTo now ls
    → now ≡ s +ℤ pos n
    → close_sweep (sweep (record { is_active = a; total_active = total; last_event = s }) ls) now
      ≡ total +ℤ pos (count_active a ls s n)
unfolding close_sweep sweep sweep_step
sweep-count a total s now n [] h u e =
    rw (e, count_early a [] (s +ℤ pos n) s n tt (≤ℤ_refl (s +ℤ pos n))) (close_open a total s n)
sweep-count a total s now n (l ∷ ls) h u e =
    let (k, ek) = gap s l.created h.0 in
    let (m, em) = gap l.created now u.0 in
    sweep-count (next_state a l) (if a then total +ℤ (l.created -ℤ s) else total) l.created now m ls
      h.1 u.1 em
    ∙ join_cut a total s l.created k _ _ ek (
        ap (count_active a (l ∷ ls) s) (span s l.created now k m n ek em e)
        ∙ count_cut a l ls s k m h ek)
