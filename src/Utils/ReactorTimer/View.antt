-- ===== src/Utils/ReactorTimer/View.antt =====
-- The maps of lists are two queues in time order.
use integration_server.Prelude.{
  ℕ, ◌+◌, ◌≤◌, ◌≡◌, refl, sym, ap, subst, ◌∙◌, inl, inr, List, [], ◌∷◌, ◌++◌, none, some, ltb, ◌==◌,
  arith, Bool-cases, Option-cases, ==_iff, ltb→lt,
}
use integration_server.Prelude.Map.{Map, find, assign, update, Above, IsOrdered}
use integration_server.Prelude.Map.Laws.{assign-IsOrdered, update-IsOrdered, find-Elem, Above-Elem}
use integration_server.Utils.TimedQueue.{put, due, waiting, From, due-From, waiting-From}
use integration_server.Utils.ReactorTimer.{TimerUnit, add_unit, take_units}

abbrev stamp : ℕ → List TimerUnit → List (ℕ × TimerUnit)
stamp t [] = []
stamp t (u ∷ us) = (t, u) ∷ stamp t us

-- The units of a map with their times, in the order of the walk.
unfoldable pub flatten : Map (List TimerUnit) → List (ℕ × TimerUnit)
flatten [] = []
flatten ((t, us) ∷ m) = stamp t us ++ flatten m

From-stamp :
    (n t : ℕ) (us : List TimerUnit) (q : List (ℕ × TimerUnit))
    → n ≤ t
    → From n q
    → From n (stamp t us ++ q)
From-stamp n t [] q h g = g
From-stamp n t (u ∷ us) q h g = (h, From-stamp n t us q h g)

From-flatten : (n k : ℕ) (m : Map (List TimerUnit)) → n ≤ k + 1 → Above k m → From n (flatten m)
unfolding flatten
From-flatten n k [] h a = tt
From-flatten n k ((t, us) ∷ m) h a =
    From-stamp n t us (flatten m) (omega arith) (From-flatten n k m h a.1)

-- Behind the units of its own time.
put-stamp :
    (t : ℕ) (u : TimerUnit) (us : List TimerUnit) (q : List (ℕ × TimerUnit))
    → From (t + 1) q
    → put t u (stamp t us ++ q) ≡ stamp t (us ++ u ∷ []) ++ q
unfolding put
put-stamp t u [] [] h = refl
put-stamp t u [] ((s, v) ∷ q) h = ground arith
put-stamp t u (v ∷ us) q h = ground (arith, put-stamp t u us q h)

-- Past the units of an earlier time.
put-later :
    (t s : ℕ) (u : TimerUnit) (us : List TimerUnit) (q : List (ℕ × TimerUnit))
    → s ≤ t
    → put t u (stamp s us ++ q) ≡ stamp s us ++ put t u q
unfolding put
put-later t s u [] q h = refl
put-later t s u (v ∷ us) q h = ground (arith, put-later t s u us q h)

put-From :
    (t : ℕ) (u : TimerUnit) (q : List (ℕ × TimerUnit)) → From (t + 1) q → put t u q ≡ (t, u) ∷ q
unfolding put
put-From t u [] h = refl
put-From t u ((s, v) ∷ q) h = ground arith

flatten-assign :
    (t : ℕ) (u : TimerUnit) (m : Map (List TimerUnit))
    → IsOrdered m
    → find t m ≡ none
    → flatten (assign t (u ∷ []) m) ≡ put t u (flatten m)
unfolding flatten assign find
flatten-assign t u [] o h = sym (put-From t u [] tt)
flatten-assign t u ((s, us) ∷ m) o h = elim (Bool-cases (ltb t s)) [
  | inl e ↦ rw e (
      sym (
        put-From t u (stamp s us ++ flatten m) (
          From-stamp (t + 1) s us (flatten m) (ground arith)
            (From-flatten (t + 1) s m (ground arith) o.0))))
  | inr e ↦ elim (Bool-cases (s == t)) [
    | inl same ↦ absurd (ground (arith, same, h))
    | inr other ↦
        rw (e, other)
          (ap (λ q. stamp s us ++ q) (flatten-assign t u m o.1 (rw other at h))
            ∙ sym (put-later t s u us (flatten m) (ground arith)))
  ]
]

flatten-update :
    (t : ℕ) (u : TimerUnit) (m : Map (List TimerUnit)) (ws : List TimerUnit)
    → IsOrdered m
    → find t m ≡ some ws
    → flatten (update t (λ us. us ++ u ∷ []) m) ≡ put t u (flatten m)
unfolding flatten update find
flatten-update t u [] ws o h = cc
flatten-update t u ((s, us) ∷ m) ws o h = elim (Bool-cases (s == t)) [
  | inl e ↦ rw e (
      subst (λ k. stamp s (us ++ u ∷ []) ++ flatten m ≡ put k u (stamp s us ++ flatten m))
        ((==_iff s t).0 e)
        (sym (put-stamp s u us (flatten m) (From-flatten (s + 1) s m (omega arith) o.0))))
  | inr e ↦
      (let found : find t m ≡ some ws = rw e at h in
        let above = Above-Elem s t ws m o.0 (find-Elem t ws m found) in
        rw e (
          ap (λ q. stamp s us ++ q) (flatten-update t u m ws o.1 found)
          ∙ sym (put-later t s u us (flatten m) (omega arith))))
]

-- A unit comes behind those of its time.
pub flatten-add_unit :
    (t : ℕ) (u : TimerUnit) (m : Map (List TimerUnit))
    → IsOrdered m
    → flatten (add_unit t u m) ≡ put t u (flatten m)
unfolding add_unit
flatten-add_unit t u m o = elim (Option-cases (find t m)) [
  | inl h ↦ rw (h, add_unit) (flatten-assign t u m o h)
  | inr (ws, h) ↦ rw (h, add_unit) (flatten-update t u m ws o h)
]

pub add_unit-IsOrdered :
    (t : ℕ) (u : TimerUnit) (m : Map (List TimerUnit)) → IsOrdered m → IsOrdered (add_unit t u m)
unfolding add_unit
add_unit-IsOrdered t u m o = elim (Option-cases (find t m)) [
  | inl h ↦ rw (h, add_unit) (assign-IsOrdered t (u ∷ []) m o)
  | inr (ws, h) ↦ rw (h, add_unit) (update-IsOrdered t (λ us. us ++ u ∷ []) m o)
]

due-stamp :
    (now t : ℕ) (us : List TimerUnit) (q : List (ℕ × TimerUnit))
    → t ≤ now
    → (due now (stamp t us ++ q) ≡ us ++ due now q)
      × (waiting now (stamp t us ++ q) ≡ waiting now q)
unfolding due waiting
due-stamp now t [] q h = (refl, refl)
due-stamp now t (u ∷ us) q h = ground (arith, due-stamp now t us q h)

pub take_units_lem :
    (now : ℕ) (m : Map (List TimerUnit))
    → IsOrdered m
    → ((take_units now m).0 ≡ due now (flatten m))
      × (flatten (take_units now m).1 ≡ waiting now (flatten m))
      × IsOrdered (take_units now m).1
unfolding take_units flatten due waiting
take_units_lem now [] o = (refl, refl, tt)
take_units_lem now ((s, us) ∷ m) o = elim (Bool-cases (ltb now s)) [
  | inl e ↦
      (let from =
          From-stamp s s us (flatten m) (omega arith) (From-flatten s s m (omega arith) o.0) in
        rw e (
          sym (due-From now s (stamp s us ++ flatten m) (ltb→lt now s e) from),
          sym (waiting-From now s (stamp s us ++ flatten m) (ltb→lt now s e) from),
          o,
        ))
  | inr e ↦
      (let (d, w, o') = take_units_lem now m o.1 in
        let (d', w') = due-stamp now s us (flatten m) (ground arith) in
        rw e (ap (λ vs. us ++ vs) d ∙ sym d', w ∙ sym w', o'))
]
