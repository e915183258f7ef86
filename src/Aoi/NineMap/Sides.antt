-- ===== src/Aoi/NineMap/Sides.antt =====
-- Which of the nine shifts the two tables of a direction hold, by trying all of them.
use integration_server.Prelude.{
  ℕ, zero, suc, ◌+◌, ◌%◌, ◌≤◌, ◌<◌, ◌≡◌, refl, sym, subst, ◌↔◌, inl, inr, Bool, true, false, ◌&&◌,
  ◌||◌, not, ltb, ◌==◌, if◌then◌else◌, arith, ℕ_discrete, Bool-cases,
}
use integration_server.Aoi.NineMap.Near.{shift, Within}

-- A test of all numbers below a bound, and of some of `n` numbers from `i` on.
all_below : ℕ → (ℕ → Bool) → Bool
all_below zero p = true
all_below (suc n) p = p n && all_below n p

any_within : ℕ → ℕ → (ℕ → Bool) → Bool
any_within i zero p = false
any_within i (suc n) p = p i || any_within (i + 1) n p

all_below_lem : (n k : ℕ) (p : ℕ → Bool) → all_below n p ≡ true → k < n → p k ≡ true
unfolding all_below
all_below_lem zero k p h l = absurd (omega arith)
all_below_lem (suc n) k p h l = elim (ℕ_discrete k n) [
  | yes e ↦ subst (λ (i : ℕ). p i ≡ true) (sym e) (ground (arith, h))
  | no e ↦ all_below_lem n k p (ground (arith, h)) (omega (arith, l, e))
]

any_within_lem : (i n : ℕ) (p : ℕ → Bool) → any_within i n p ≡ true → Within i n (λ j. p j ≡ true)
unfolding any_within
any_within_lem i zero p h = absurd (cc)
any_within_lem i (suc n) p h = elim (Bool-cases (p i)) [
  | inl e ↦ (i, omega arith, omega arith, e)
  | inr e ↦
      (let (j, a, b, t) = any_within_lem (i + 1) n p (ground (arith, h, e)) in
        (j, omega (arith, a), omega (arith, b), t))
]

any_within_intro :
    (i n j : ℕ) (p : ℕ → Bool) → i ≤ j → j < i + n → p j ≡ true → any_within i n p ≡ true
unfolding any_within
any_within_intro i zero j p a b t = absurd (omega (arith, a, b))
any_within_intro i (suc n) j p a b t = elim (ℕ_discrete i j) [
  | yes e ↦
      (let here : p i ≡ true = subst (λ (k : ℕ). p k ≡ true) (sym e) t in ground (arith, here))
  | no e ↦ ground (arith, any_within_intro (i + 1) n j p (omega (arith, a, e)) (omega (arith, b)) t)
]

-- A table of a direction: the first index and the number of cells.
abbrev pub direct_start : ℕ → ℕ × ℕ
direct_start dir = if dir % 2 == 1 then (6, 5) else (7, 3)

abbrev pub reverse_start : ℕ → ℕ × ℕ
reverse_start dir = if dir % 2 == 1 then (2, 5) else (3, 3)

same_shift : ℕ × ℕ → ℕ → ℕ → Bool
same_shift s dx dy = s.0 == dx && s.1 == dy

holds : ℕ × ℕ → ℕ → ℕ → ℕ → Bool
holds start dir dx dy = any_within start.0 start.1 (λ j. same_shift (shift ((j + dir) % 8)) dx dy)

-- A cell at a shift from the new place is far from the old place, and the other way round.
abbrev pub far_behind : ℕ → ℕ → Bool
far_behind s d = d + s == 0 || d + s == 4

abbrev pub far_ahead : ℕ → ℕ → Bool
far_ahead s d = ltb (d + 1) s || ltb (s + 1) d

direct_test : ℕ → ℕ → ℕ → Bool
direct_test dir dx dy =
    if far_behind (shift dir).0 dx || far_behind (shift dir).1 dy
    then holds (direct_start dir) dir dx dy
    else not (holds (direct_start dir) dir dx dy)

reverse_test : ℕ → ℕ → ℕ → Bool
reverse_test dir dx dy =
    if far_ahead (shift dir).0 dx || far_ahead (shift dir).1 dy
    then holds (reverse_start dir) dir dx dy
    else not (holds (reverse_start dir) dir dx dy)

test_all : (ℕ → ℕ → ℕ → Bool) → Bool
test_all t = all_below 8 (λ dir. all_below 3 (λ dx. all_below 3 (λ dy. t dir dx dy)))

direct_tests : test_all direct_test ≡ true
unfolding test_all all_below direct_test holds any_within same_shift
direct_tests = refl

reverse_tests : test_all reverse_test ≡ true
unfolding test_all all_below reverse_test holds any_within same_shift
reverse_tests = refl

-- The table of a direction holds a shift.
abbrev pub Holds : ℕ × ℕ → ℕ → ℕ → ℕ → Type 0
Holds start dir dx dy =
    Within start.0 start.1
      (λ j. ((shift ((j + dir) % 8)).0 ≡ dx) × ((shift ((j + dir) % 8)).1 ≡ dy))

same_shift_lem : (s : ℕ × ℕ) (dx dy : ℕ) → (same_shift s dx dy ≡ true) ↔ ((s.0 ≡ dx) × (s.1 ≡ dy))
unfolding same_shift
same_shift_lem s dx dy =
    (λ h. (ground (arith, h), ground (arith, h)), λ h. ground (arith, h.0, h.1))

holds_iff : (start : ℕ × ℕ) (dir dx dy : ℕ) → (holds start dir dx dy ≡ true) ↔ Holds start dir dx dy
unfolding holds
holds_iff start dir dx dy = (
  λ h.
      (let (j, a, b, t) =
          any_within_lem start.0 start.1 (λ j. same_shift (shift ((j + dir) % 8)) dx dy) h in
        (j, a, b, (same_shift_lem (shift ((j + dir) % 8)) dx dy).0 t)),
  λ (j, a, b, t).
      any_within_intro start.0 start.1 j (λ j. same_shift (shift ((j + dir) % 8)) dx dy) a b
        ((same_shift_lem (shift ((j + dir) % 8)) dx dy).1 t),
)

test_all_lem :
    (t : ℕ → ℕ → ℕ → Bool)
    → test_all t ≡ true
    → (dir dx dy : ℕ) → dir < 8
    → dx < 3
    → dy < 3
    → t dir dx dy ≡ true
unfolding test_all
test_all_lem t h dir dx dy a b c =
    all_below_lem 3 dy (λ dy. t dir dx dy)
      (all_below_lem 3 dx (λ dx. all_below 3 (λ dy. t dir dx dy))
        (all_below_lem 8 dir (λ dir. all_below 3 (λ dx. all_below 3 (λ dy. t dir dx dy))) h a) b)
      c

agree : (b c : Bool) → (if b then c else not c) ≡ true → (c ≡ true) ↔ (b ≡ true)
agree true true h = (λ e. e, λ e. e)
agree true false h = absurd (cc)
agree false true h = absurd (cc)
agree false false h = (λ e. e, λ e. e)

iff_trans : {A B C : Type 0} → A ↔ B → B ↔ C → A ↔ C
iff_trans f g = (λ a. g.0 (f.0 a), λ c. f.1 (g.1 c))

pub direct-Holds :
    (dir dx dy : ℕ)
    → dir < 8
    → dx < 3
    → dy < 3
    → Holds (direct_start dir) dir dx dy
      ↔ ((far_behind (shift dir).0 dx || far_behind (shift dir).1 dy) ≡ true)
unfolding direct_test
direct-Holds dir dx dy a b c =
    iff_trans
      ((holds_iff (direct_start dir) dir dx dy).1, (holds_iff (direct_start dir) dir dx dy).0)
      (agree (far_behind (shift dir).0 dx || far_behind (shift dir).1 dy)
        (holds (direct_start dir) dir dx dy)
        (test_all_lem direct_test direct_tests dir dx dy a b c))

pub reverse-Holds :
    (dir dx dy : ℕ)
    → dir < 8
    → dx < 3
    → dy < 3
    → Holds (reverse_start dir) dir dx dy
      ↔ ((far_ahead (shift dir).0 dx || far_ahead (shift dir).1 dy) ≡ true)
unfolding reverse_test
reverse-Holds dir dx dy a b c =
    iff_trans
      ((holds_iff (reverse_start dir) dir dx dy).1, (holds_iff (reverse_start dir) dir dx dy).0)
      (agree (far_ahead (shift dir).0 dx || far_ahead (shift dir).1 dy)
        (holds (reverse_start dir) dir dx dy)
        (test_all_lem reverse_test reverse_tests dir dx dy a b c))
