-- ===== src/Scheduler/Counting.antt =====
-- How often an id stands among work items, and what the list operations do to that number.
use xray_e2e_prober.Base.{
  ℕ, zero, suc, ◌+◌, String, ◌≡◌, refl, Bool, true, false, List, [], ◌∷◌, ◌++◌, some, arith, ◌==◌,
  string_eq, length,
}
use xray_e2e_prober.Scheduler.State.{WorkItem, Work, works}
use xray_e2e_prober.Scheduler.Queueing.{nth, without, replace}

abbrev pub one : Bool → ℕ
one true = 1
one false = 0

unfoldable pub tally : String → List WorkItem → ℕ
tally id [] = 0
tally id (item ∷ items) = one (item.check.check_id == id) + tally id items

pub tally-append :
    (id : String) (xs ys : List WorkItem) → tally id (xs ++ ys) ≡ tally id xs + tally id ys
unfolding tally
tally-append id [] ys = omega arith
tally-append id (x ∷ xs) ys = omega (arith, tally-append id xs ys)

pub tally-without :
    (id : String) (ws : List Work) (n : ℕ) (w : Work)
    → nth ws n ≡ some w
    → tally id (works ws) ≡ one (w.item.check.check_id == id) + tally id (works (without ws n))
unfolding tally
tally-without id [] n w h = cc
tally-without id (x ∷ ws) zero w h = ground arith
tally-without id (x ∷ ws) (suc n) w h = omega (arith, tally-without id ws n w h)

pub length-without :
    (ws : List Work) (n : ℕ) (w : Work)
    → nth ws n ≡ some w
    → length ws ≡ suc (length (without ws n))
length-without [] n w h = cc
length-without (x ∷ ws) zero w h = refl
length-without (x ∷ ws) (suc n) w h = omega (arith, length-without ws n w h)

pub works-replace :
    (ws : List Work) (n : ℕ) (w v : Work)
    → nth ws n ≡ some w
    → v.item ≡ w.item
    → works (replace n v ws) ≡ works ws
works-replace [] n w v h e = cc
works-replace (x ∷ ws) zero w v h e = ground arith
works-replace (x ∷ ws) (suc n) w v h e = rw (works-replace ws n w v h e)

pub length-replace : (ws : List Work) (n : ℕ) (v : Work) → length (replace n v ws) ≡ length ws
length-replace [] n v = refl
length-replace (x ∷ ws) zero v = refl
length-replace (x ∷ ws) (suc n) v = omega (arith, length-replace ws n v)
