-- ===== src/Utils/Reactor/Mount/Wakes.antt =====
-- The units that wait in a mount, and those that a poll takes.
use integration_server.Prelude.{
  ℕ, ◌+◌, ◌<◌, ◌≡◌, refl, subst, inl, inr, true, false, [], ◌∷◌, count, ◌==◌, if◌then◌else◌, arith,
  Bool-cases, ==_iff,
}
use integration_server.Prelude.Map.{Map, assign, keys}
use integration_server.Utils.Reactor.Mount.{touches, take_touched}

-- The units are those of their events.
abbrev pub IsOwn : Map ℕ → Type 0
IsOwn [] = Unit
IsOwn ((e, u) ∷ m) = (u ≡ e) × IsOwn m

-- What a poll takes and what it leaves are together what was there.
pub take_touched-count :
    (event e : ℕ) (m : Map ℕ)
    → IsOwn m
    → count e (take_touched event m).0 + count e (keys (take_touched event m).1) ≡ count e (keys m)
unfolding take_touched count
take_touched-count event e [] o = refl
take_touched-count event e ((k, u) ∷ m) o = ground (arith, take_touched-count event e m o.1)

pub take_touched-IsOwn : (event : ℕ) (m : Map ℕ) → IsOwn m → IsOwn (take_touched event m).1
unfolding take_touched
take_touched-IsOwn event [] o = tt
take_touched-IsOwn event ((k, u) ∷ m) o = ground (arith, take_touched-IsOwn event m o.1)

pub count-assign :
    (e k : ℕ) (m : Map ℕ)
    → count k (keys m) ≡ 0
    → count e (keys (assign k k m)) ≡ count e (keys m) + (if k == e then 1 else 0)
unfolding count assign
count-assign e k [] h = omega arith
count-assign e k ((j, u) ∷ m) h = ground (arith, h, count-assign e k m)

pub assign-IsOwn : (k : ℕ) (m : Map ℕ) → IsOwn m → IsOwn (assign k k m)
unfolding assign
assign-IsOwn k [] o = (refl, tt)
assign-IsOwn k ((j, u) ∷ m) o = ground (arith, assign-IsOwn k m o.1)

-- A poll takes no unit of an event that it does not touch.
pub take_touched-other :
    (event e : ℕ) (m : Map ℕ)
    → IsOwn m
    → touches event e ≡ false
    → count e (take_touched event m).0 ≡ 0
unfolding take_touched count
take_touched-other event e [] o off = refl
take_touched-other event e ((k, u) ∷ m) o off = elim (Bool-cases (touches event k)) [
  | inl t ↦ elim (Bool-cases (k == e)) [
    | inl same ↦ (let c = subst (λ i. touches event i ≡ true) ((==_iff k e).0 same) t in absurd cc)
    | inr other ↦
        (let different : (u == e) ≡ false = rw o.0 other in
          ground (arith, t, different, take_touched-other event e m o.1 off))
  ]
  | inr t ↦ ground (arith, t, take_touched-other event e m o.1 off)
]

-- The unit that is added is there.
pub count-assign_self : (k : ℕ) (m : Map ℕ) → 0 < count k (keys (assign k k m))
unfolding count assign
count-assign_self k [] = ground (arith, (==_iff k k).1 refl)
count-assign_self k ((j, u) ∷ m) = ground (arith, (==_iff k k).1 refl, count-assign_self k m)
