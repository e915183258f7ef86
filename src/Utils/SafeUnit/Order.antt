-- ===== src/Utils/SafeUnit/Order.antt =====
-- The functions of a safe unit run one at a time, in the order in which they were accepted.
use integration_server.Prelude.{
  ℕ, ◌<◌, ◌≡◌, refl, sym, ap, ◌∙◌, subst, inl, inr, true, false, List, [], ◌∷◌, ◌++◌, length, drop,
  get_or, append_nil, append_assoc, length-append, arith, Bool-cases, if◌then◌else◌,
}
use integration_server.Utils.SafeUnit.{
  SafeUnit, new_safe_unit, post_without_lock, post, cancel_units, begin_complete, end_complete,
  finish_complete, Step, posts, cancels, begins, runs_one, finishes,
}

pub data Reaches : SafeUnit → Type 0 where
  started : Reaches new_safe_unit
  next : (u v : SafeUnit) → Reaches u → Step u v → Reaches v

-- No thread works on the unit, or the scheduler holds it, or one thread runs it.
pub data Phase (u : SafeUnit) : Type 0 where
  idle :
      u.access ≡ false
      → u.scheduled ≡ 0
      → u.runs ≡ []
      → u.access_list ≡ []
      → u.wait_list ≡ []
      → u.done ≡ u.accepted
      → Phase u
  held :
      u.access ≡ true
      → u.scheduled ≡ 1
      → u.runs ≡ []
      → u.done ++ (u.access_list ++ u.wait_list) ≡ u.accepted
      → Phase u
  running :
      (r : List ℕ)
      → u.access ≡ true
      → u.scheduled ≡ 0
      → u.runs ≡ r ∷ []
      → u.access_list ≡ []
      → u.done ++ (r ++ u.wait_list) ≡ u.accepted
      → Phase u

one_run :
    (xs ys : List (List ℕ)) (z r : List ℕ) → xs ++ z ∷ ys ≡ r ∷ [] → (xs ≡ []) × (z ≡ r) × (ys ≡ [])
one_run [] ys z r e = (refl, ap (λ zs. get_or zs 0 r) e, ap (λ zs. drop 1 zs) e)
one_run (x ∷ xs) ys z r e = absurd (omega (arith, ap length e, length-append xs (z ∷ ys)))

grow : (d xs ys : List ℕ) (f : ℕ) → d ++ (xs ++ (ys ++ f ∷ [])) ≡ (d ++ (xs ++ ys)) ++ f ∷ []
grow d xs ys f =
    ap (λ zs. d ++ zs) (sym (append_assoc xs ys (f ∷ [])))
    ∙ sym (append_assoc d (xs ++ ys) (f ∷ []))

post_without_lock-Phase : (f : ℕ) (u : SafeUnit) → Phase u → Phase (post_without_lock f u)
unfolding post_without_lock
post_without_lock-Phase f u (idle a s r x w d) = rw a (
    held refl (omega (arith, s)) r (
      ap (λ xs. u.done ++ ((xs ++ f ∷ []) ++ u.wait_list)) x
      ∙ ap (λ ws. u.done ++ (f ∷ ws)) w
      ∙ ap (λ ds. ds ++ f ∷ []) d))
post_without_lock-Phase f u (held a s r d) =
    rw a (held refl s r (grow u.done u.access_list u.wait_list f ∙ ap (λ ds. ds ++ f ∷ []) d))
post_without_lock-Phase f u (running l a s r x d) =
    rw a (running l refl s r x (grow u.done l u.wait_list f ∙ ap (λ ds. ds ++ f ∷ []) d))

flagged : (u : SafeUnit) → Phase u → Phase (record u { cancel_flag = true })
flagged u (idle a s r x w d) = idle a s r x w d
flagged u (held a s r d) = held a s r d
flagged u (running l a s r x d) = running l a s r x d

post-Phase : (f : ℕ) (u : SafeUnit) → Phase u → Phase (post f u)
unfolding post
post-Phase f u p = elim (Bool-cases u.cancel_flag) [
  | inl e ↦ subst Phase (ap (λ b. if b then u else post_without_lock f u) (sym e)) p
  | inr e ↦
      subst Phase (ap (λ b. if b then u else post_without_lock f u) (sym e))
        (post_without_lock-Phase f u p)
]

cancel_units-Phase : (f : ℕ) (u : SafeUnit) → Phase u → Phase (cancel_units f u)
unfolding cancel_units
cancel_units-Phase f u p =
    let v : SafeUnit = record (post_without_lock f u) { cancel_flag = true } in
    elim (Bool-cases u.cancel_flag) [
      | inl e ↦ subst Phase (ap (λ b. if b then u else v) (sym e)) p
      | inr e ↦
          subst Phase (ap (λ b. if b then u else v) (sym e))
            (flagged (post_without_lock f u) (post_without_lock-Phase f u p))
    ]

begin_complete-Phase : (u : SafeUnit) → 0 < u.scheduled → Phase u → Phase (begin_complete u)
unfolding begin_complete
begin_complete-Phase u h (idle a s r x w d) = absurd (omega (arith, h, s))
begin_complete-Phase u h (held a s r d) =
    running u.access_list a (omega (arith, s)) (ap (λ rs. u.access_list ∷ rs) r) refl d
begin_complete-Phase u h (running l a s r x d) = absurd (omega (arith, h, s))

run_one-Phase :
    (xs ys : List (List ℕ)) (f : ℕ) (fs : List ℕ) (u : SafeUnit)
    → u.runs ≡ xs ++ (f ∷ fs) ∷ ys
    → Phase u
    → Phase (record u { runs = xs ++ fs ∷ ys; done = u.done ++ f ∷ [] })
run_one-Phase xs ys f fs u e (idle a s r x w d) =
    absurd (omega (arith, ap length (sym r ∙ e), length-append xs ((f ∷ fs) ∷ ys)))
run_one-Phase xs ys f fs u e (held a s r d) =
    absurd (omega (arith, ap length (sym r ∙ e), length-append xs ((f ∷ fs) ∷ ys)))
run_one-Phase xs ys f fs u e (running l a s r x d) =
    let (no_xs, same, no_ys) = one_run xs ys (f ∷ fs) l (sym e ∙ r) in
    running fs a s (ap (λ zs. zs ++ fs ∷ ys) no_xs ∙ ap (λ zs. fs ∷ zs) no_ys) x (
      append_assoc u.done (f ∷ []) (fs ++ u.wait_list)
      ∙ ap (λ zs. u.done ++ (zs ++ u.wait_list)) same
      ∙ d)

end_complete-Phase :
    (ws : List ℕ) (u : SafeUnit)
    → u.access ≡ true
    → u.scheduled ≡ 0
    → u.runs ≡ []
    → u.access_list ≡ ws
    → u.wait_list ≡ []
    → u.done ++ ws ≡ u.accepted
    → Phase (end_complete ws u)
unfolding end_complete
end_complete-Phase [] u a s r x w d = idle refl s r x w (sym (append_nil u.done) ∙ d)
end_complete-Phase (f ∷ fs) u a s r x w d = held a (omega (arith, s)) r (
    ap (λ xs. u.done ++ (xs ++ u.wait_list)) x
    ∙ ap (λ ws. u.done ++ ((f ∷ fs) ++ ws)) w
    ∙ ap (λ zs. u.done ++ zs) (append_nil (f ∷ fs))
    ∙ d)

finish_complete-Phase :
    (xs ys : List (List ℕ)) (u : SafeUnit)
    → u.runs ≡ xs ++ [] ∷ ys
    → Phase u
    → Phase (finish_complete (record u { runs = xs ++ ys }))
unfolding finish_complete
finish_complete-Phase xs ys u e (idle a s r x w d) =
    absurd (omega (arith, ap length (sym r ∙ e), length-append xs ([] ∷ ys)))
finish_complete-Phase xs ys u e (held a s r d) =
    absurd (omega (arith, ap length (sym r ∙ e), length-append xs ([] ∷ ys)))
finish_complete-Phase xs ys u e (running l a s r x d) =
    let (no_xs, same, no_ys) = one_run xs ys [] l (sym e ∙ r) in
    end_complete-Phase u.wait_list
      (record u { runs = xs ++ ys; wait_list = u.access_list; access_list = u.wait_list }) a s
      (ap (λ zs. zs ++ ys) no_xs ∙ no_ys) refl x (ap (λ zs. u.done ++ (zs ++ u.wait_list)) same ∙ d)

Step-Phase : (u v : SafeUnit) → Step u v → Phase u → Phase v
Step-Phase u _ (posts f _) p = post-Phase f u p
Step-Phase u _ (cancels f _) p = cancel_units-Phase f u p
Step-Phase u _ (begins _ h) p = begin_complete-Phase u h p
Step-Phase u _ (runs_one xs ys f fs _ e) p = run_one-Phase xs ys f fs u e p
Step-Phase u _ (finishes xs ys _ e) p = finish_complete-Phase xs ys u e p

-- After any steps of any number of threads on a new safe unit, one of three holds: no thread works
-- on it, nothing waits and all that was accepted has run; or the scheduler holds it once and no
-- thread runs it; or one thread runs it, and the scheduler does not hold it. In each, what has run,
-- followed by what the thread has left, what is in accessList and what is in waitList, is what was
-- accepted, in that order.
pub Reaches-Phase : (u : SafeUnit) → Reaches u → Phase u
unfolding new_safe_unit
Reaches-Phase _ started = idle refl refl refl refl refl refl
Reaches-Phase v (next u _ r s) = Step-Phase u v s (Reaches-Phase u r)
