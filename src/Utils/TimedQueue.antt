-- ===== src/Utils/TimedQueue.antt =====
-- What the two timers of utils/ promise: entries wait in the order of their times, those of one time
-- in the order in which they came, and a tick takes those whose time has come.
use integration_server.Prelude.{
  ℕ, ◌≤◌, ◌<◌, ◌≡◌, refl, List, [], ◌∷◌, ltb, leb, if◌then◌else◌, arith,
}

module _ {A : Type 0} where
  -- std::multimap::insert: behind the entries of the same key.
  unfoldable pub put : ℕ → A → List (ℕ × A) → List (ℕ × A)
  put t a [] = (t, a) ∷ []
  put t a ((s, b) ∷ q) = if ltb t s then (t, a) ∷ (s, b) ∷ q else (s, b) ∷ put t a q

  -- The entries whose time has come, in their order, and the others.
  unfoldable pub due : ℕ → List (ℕ × A) → List A
  due now [] = []
  due now ((s, a) ∷ q) = if leb s now then a ∷ due now q else due now q

  unfoldable pub waiting : ℕ → List (ℕ × A) → List (ℕ × A)
  waiting now [] = []
  waiting now ((s, a) ∷ q) = if leb s now then waiting now q else (s, a) ∷ waiting now q

  -- No entry is earlier than `n`.
  abbrev pub From : ℕ → List (ℕ × A) → Type 0
  From n [] = Unit
  From n ((s, a) ∷ q) = (n ≤ s) × From n q

  abbrev pub IsSorted : List (ℕ × A) → Type 0
  IsSorted [] = Unit
  IsSorted ((s, a) ∷ q) = From s q × IsSorted q

  From-put : (n t : ℕ) (a : A) (q : List (ℕ × A)) → n ≤ t → From n q → From n (put t a q)
  unfolding put
  From-put n t a [] h g = (h, tt)
  From-put n t a ((s, b) ∷ q) h g = ground (arith, From-put n t a q h g.1)

  From-le : (m n : ℕ) (q : List (ℕ × A)) → m ≤ n → From n q → From m q
  From-le m n [] h g = tt
  From-le m n ((s, a) ∷ q) h g = (omega arith, From-le m n q h g.1)

  pub put-IsSorted : (t : ℕ) (a : A) (q : List (ℕ × A)) → IsSorted q → IsSorted (put t a q)
  unfolding put
  put-IsSorted t a [] o = (tt, tt)
  put-IsSorted t a ((s, b) ∷ q) o =
      ground (arith, put-IsSorted t a q o.1, From-put s t a q, From-le t s q)

  -- Past a time that has not come, nothing is due.
  pub due-From : (now n : ℕ) (q : List (ℕ × A)) → now < n → From n q → due now q ≡ []
  unfolding due
  due-From now n [] h g = refl
  due-From now n ((s, a) ∷ q) h g = ground (arith, due-From now n q h g.1)

  pub waiting-From : (now n : ℕ) (q : List (ℕ × A)) → now < n → From n q → waiting now q ≡ q
  unfolding waiting
  waiting-From now n [] h g = refl
  waiting-From now n ((s, a) ∷ q) h g = ground (arith, waiting-From now n q h g.1)

  From-waiting : (now n : ℕ) (q : List (ℕ × A)) → From n q → From n (waiting now q)
  unfolding waiting
  From-waiting now n [] g = tt
  From-waiting now n ((s, a) ∷ q) g = ground (arith, From-waiting now n q g.1)

  pub waiting-IsSorted : (now : ℕ) (q : List (ℕ × A)) → IsSorted q → IsSorted (waiting now q)
  unfolding waiting
  waiting-IsSorted now [] o = tt
  waiting-IsSorted now ((s, a) ∷ q) o =
      ground (arith, waiting-IsSorted now q o.1, From-waiting now s q o.0)
