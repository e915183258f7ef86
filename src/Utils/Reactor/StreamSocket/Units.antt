-- ===== src/Utils/Reactor/StreamSocket/Units.antt =====
-- How each step of a socket moves the units of its operations.
use integration_server.Prelude.{
  ℕ, ◌+◌, ◌≡◌, refl, sym, ap, subst, inl, inr, false, List, [], ◌∷◌, ◌++◌, count, count-append,
  ◌==◌, arith, Bool-cases, ==_iff,
}
use integration_server.Utils.Reactor.Mount.{event_bit, get_tigger_event, watch}
use integration_server.Utils.Reactor.StreamSocket.{
  Outcome, StreamSocket, submit, test_event, watch_event, add_event, away, pending,
}
use integration_server.Utils.Reactor.StreamSocket.Holds.{
  Holds, move-Holds, finish-Holds, add_unit-Holds, watch_lem,
}

-- The events of the handlers that were called.
unfoldable pub events : List (ℕ × Outcome) → List ℕ
events [] = []
events ((e, o) ∷ hs) = e ∷ events hs

pub events-append :
    (hs : List (ℕ × Outcome)) (e : ℕ) (o : Outcome)
    → events (hs ++ (e, o) ∷ []) ≡ events hs ++ e ∷ []
unfolding events
events-append [] e o = refl
events-append ((d, p) ∷ hs) e o = ap (λ es. d ∷ es) (events-append hs e o)

-- All units but those of `hand` stand as `s` tells.
abbrev pub HoldsWith : List ℕ → StreamSocket → Type 0
HoldsWith hand s = Holds (λ e. count e hand + away s e) s.started (events s.handled) s.mount

-- The units stand elsewhere, and other fields of the mount change.
pub moved :
    (hand hand' : List ℕ) (s t : StreamSocket)
    → ((e : ℕ) → count e hand' + away t e ≡ count e hand + away s e)
    → t.mount.unit_map ≡ s.mount.unit_map
    → t.mount.cancel_flag ≡ s.mount.cancel_flag
    → HoldsWith hand s
    → Holds (λ e. count e hand' + away t e) s.started (events s.handled) t.mount
moved hand hand' s t same u c h =
    move-Holds s.started (events s.handled) (λ e. count e hand + away s e)
      (λ e. count e hand' + away t e) s.mount t.mount same u c h

-- A new operation, when none of its kind is there.
pub start-HoldsWith :
    (event : ℕ) (s : StreamSocket)
    → pending event s ≡ 0
    → HoldsWith [] s
    → HoldsWith (event ∷ []) (record s { started = s.started ++ event ∷ [] })
unfolding count
start-HoldsWith event s empty h = record {
  own = h.own;
  live = λ c e. omega (arith, h.live c e, count-append e s.started (event ∷ []));
  bound = λ e. omega (arith, h.bound e, count-append e s.started (event ∷ []));
  limit = λ e. elim (Bool-cases (event == e)) [
    | inl same ↦
        (let z = subst (λ i. pending i s ≡ 0) ((==_iff event e).0 same) empty in
          ground (arith, z, same))
    | inr other ↦ ground (arith, h.limit e, other)
  ];
}

-- The unit is one of a list.
pub split-count :
    (xs ys zs : List ℕ) (event e : ℕ)
    → zs ≡ xs ++ event ∷ ys
    → count e zs ≡ count e (xs ++ ys) + count e (event ∷ [])
unfolding count
split-count xs ys zs event e p =
    omega (arith, ap (count e) p, count-append e xs (event ∷ ys), count-append e xs ys)

pub take-HoldsWith :
    (xs ys : List ℕ) (event : ℕ) (s : StreamSocket)
    → s.posted ≡ xs ++ event ∷ ys
    → HoldsWith [] s
    → HoldsWith (event ∷ []) (record s { posted = xs ++ ys })
unfolding count
take-HoldsWith xs ys event s p h =
    moved [] (event ∷ []) s (record s { posted = xs ++ ys })
      (λ e. omega (arith, split-count xs ys s.posted event e p)) refl refl h

pub post-HoldsWith :
    (event : ℕ) (s : StreamSocket)
    → HoldsWith (event ∷ []) s
    → HoldsWith [] (record s { posted = s.posted ++ event ∷ [] })
unfolding count
post-HoldsWith event s h =
    moved (event ∷ []) [] s (record s { posted = s.posted ++ event ∷ [] })
      (λ e. omega (arith, count-append e s.posted (event ∷ []))) refl refl h

pub submit-HoldsWith :
    (event : ℕ) (s : StreamSocket) → HoldsWith (event ∷ []) s → HoldsWith [] (submit event s)
unfolding count submit
submit-HoldsWith event s h =
    moved (event ∷ []) [] s (record s { testing = s.testing ++ event ∷ [] })
      (λ e. omega (arith, count-append e s.testing (event ∷ []))) refl refl h

pub test-HoldsWith :
    (event : ℕ) (s : StreamSocket) → HoldsWith (event ∷ []) s → HoldsWith [] (test_event event s)
unfolding test_event count
test-HoldsWith event s h = elim (Bool-cases (get_tigger_event event s.mount)) [
  | inl t ↦ rw t (post-HoldsWith event s h)
  | inr t ↦ rw t (
      moved (event ∷ []) [] s (record s { watching = s.watching ++ event ∷ [] })
        (λ e. omega (arith, count-append e s.watching (event ∷ []))) refl refl h)
]

pub watch-HoldsWith :
    (event : ℕ) (s : StreamSocket) → HoldsWith (event ∷ []) s → HoldsWith [] (watch_event event s)
unfolding watch_event count
watch-HoldsWith event s h =
    let w = watch (event_bit event) s.mount in
    let (u, c) = watch_lem (event_bit event) s.mount in
    moved (event ∷ []) [] s
      (record s { mount = w.1; ctls = s.ctls ++ w.0; adding = s.adding ++ event ∷ [] })
      (λ e. omega (arith, count-append e s.adding (event ∷ []))) u c h

pub add-HoldsWith :
    (event : ℕ) (xs ys : List ℕ) (s : StreamSocket)
    → s.adding ≡ xs ++ event ∷ ys
    → (event == 4) ≡ false
    → HoldsWith [] s
    → HoldsWith [] (add_event event (record s { adding = xs ++ ys }))
unfolding add_event count
add-HoldsWith event xs ys s p other h =
    let t : StreamSocket = record s { adding = xs ++ ys } in
    add_unit-Holds s.started (events s.handled) event (λ e. 0 + away s e) (λ e. 0 + away t e)
      s.mount (λ e. omega (arith, split-count xs ys s.adding event e p)) h other

pub finish-HoldsWith :
    (event : ℕ) (o : Outcome) (s : StreamSocket)
    → HoldsWith (event ∷ []) s
    → HoldsWith [] (record s { handled = s.handled ++ (event, o) ∷ [] })
unfolding count
finish-HoldsWith event o s h =
    subst (λ es. Holds (λ e. 0 + away s e) s.started es s.mount)
      (sym (events-append s.handled event o))
      (finish-Holds s.started (events s.handled) event (λ e. count e (event ∷ []) + away s e)
        (λ e. 0 + away s e) s.mount (λ e. omega arith) h)
