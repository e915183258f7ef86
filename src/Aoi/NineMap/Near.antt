-- ===== src/Aoi/NineMap/Near.antt =====
-- The nine cells around a cell are those at most one step away on both axes, within the map.
use native.Mathlib.Nat.{mul-le-mul_right, mul_comm}
use integration_server.Prelude.{
  ℕ, zero, suc, ◌+◌, ◌*◌, ◌%◌, ◌^◌, ◌≤◌, ◌<◌, ◌≡◌, refl, sym, ap, subst, ◌∙◌, ◌⊎◌, ◌↔◌, inl, inr,
  true, false, List, [], ◌∷◌, ◌++◌, get_or, arith, Elem, Elem-append_left, Elem-append_right,
  Bool-cases, ℕ_discrete,
}
use integration_server.Aoi.NineMap.{
  minus_one, nine_index_array, inside, push_cell, nine_cells, side_cells,
}

-- The offsets with one added, so that they are natural numbers.
abbrev pub shifts : List (ℕ × ℕ)
shifts = (1, 0) ∷ (2, 0) ∷ (2, 1) ∷ (2, 2) ∷ (1, 2) ∷ (0, 2) ∷ (0, 1) ∷ (0, 0) ∷ (1, 1) ∷ []

abbrev pub shift : ℕ → ℕ × ℕ
shift i = get_or shifts i (1, 1)

-- An offset stands for a shift.
abbrev pub Stands : ℕ → ℕ → Type 0
Stands o s = ((o ≡ 0) × (s ≡ 1)) ⊎ ((o ≡ 1) × (s ≡ 2)) ⊎ ((o ≡ minus_one) × (s ≡ 0))

abbrev pub offset : ℕ → ℕ × ℕ
offset i = get_or nine_index_array i (0, 0)

pub offset-Stands : (i : ℕ) → Stands (offset i).0 (shift i).0 × Stands (offset i).1 (shift i).1
unfolding nine_index_array
offset-Stands zero = (inl (refl, refl), inr (inr (refl, refl)))
offset-Stands (suc zero) = (inr (inl (refl, refl)), inr (inr (refl, refl)))
offset-Stands (suc (suc zero)) = (inr (inl (refl, refl)), inl (refl, refl))
offset-Stands (suc (suc (suc zero))) = (inr (inl (refl, refl)), inr (inl (refl, refl)))
offset-Stands (suc (suc (suc (suc zero)))) = (inl (refl, refl), inr (inl (refl, refl)))
offset-Stands (suc (suc (suc (suc (suc zero))))) = (inr (inr (refl, refl)), inr (inl (refl, refl)))
offset-Stands (suc (suc (suc (suc (suc (suc zero)))))) = (inr (inr (refl, refl)), inl (refl, refl))
offset-Stands (suc (suc (suc (suc (suc (suc (suc zero))))))) =
    (inr (inr (refl, refl)), inr (inr (refl, refl)))
offset-Stands (suc (suc (suc (suc (suc (suc (suc (suc zero)))))))) =
    (inl (refl, refl), inl (refl, refl))
offset-Stands (suc (suc (suc (suc (suc (suc (suc (suc (suc n))))))))) =
    (inl (refl, refl), inl (refl, refl))

Elem-append_cases :
    {A : Type 0} (a : A) (xs ys : List A) → Elem a (xs ++ ys) → Elem a xs ⊎ Elem a ys
Elem-append_cases a [] ys h = inr h
Elem-append_cases a (x ∷ xs) ys (inl e) = inl (inl e)
Elem-append_cases a (x ∷ xs) ys (inr h) = elim (Elem-append_cases a xs ys h) [
  | inl l ↦ inl (inr l)
  | inr r ↦ inr r
]

-- A map that its numbers can hold.
abbrev pub Small : ℕ → ℕ → Type 0
Small sx sy = (sx < 2 ^ 31) × (sy < 2 ^ 31) × (sx * sy ≤ 2 ^ 32)

-- The cell of index `c` lies at a shift from (x, y), on the map.
abbrev pub At : ℕ → ℕ → ℕ → ℕ → ℕ × ℕ → ℕ → Type 0
At sx sy x y s c =
    (cx : ℕ) × (cy : ℕ) × (cx < sx)
    × (cy < sy)
    × (cx + 1 ≡ x + s.0)
    × (cy + 1 ≡ y + s.1)
    × (c ≡ cy * sx + cx)

inside_shift :
    (s m o d : ℕ)
    → m < 2 ^ 31
    → s < m
    → Stands o d
    → ((inside ((s + o) % 2 ^ 32) m ≡ true)
        × ((s + o) % 2 ^ 32 < m)
        × ((s + o) % 2 ^ 32 + 1 ≡ s + d))
      ⊎ ((inside ((s + o) % 2 ^ 32) m ≡ false) × ((c : ℕ) → c < m → c + 1 ≡ s + d → ⊥))
unfolding inside
inside_shift s m o d h k t = elim (Bool-cases (inside ((s + o) % 2 ^ 32) m)) [
  | inl e ↦ inl (e, ground (arith, e), ground (arith, e, t))
  | inr e ↦ inr (e, λ c l q. ground (arith, e, t, l, q))
]

cell_lt : (cx cy sx sy : ℕ) → cx < sx → cy < sy → cy * sx + cx < sx * sy
cell_lt cx cy sx sy h k =
    omega (arith, mul-le-mul_right {m = cy + 1} {n = sy} sx (omega arith), mul_comm sx sy)

pub Small-mod :
    (cx cy sx sy : ℕ) → Small sx sy → cx < sx → cy < sy → (cy * sx + cx) % 2 ^ 32 ≡ cy * sx + cx
Small-mod cx cy sx sy small h k = omega (arith, cell_lt cx cy sx sy h k, small.2)

At-unique : (sx sy x y : ℕ) (s : ℕ × ℕ) (c d : ℕ) → At sx sy x y s c → At sx sy x y s d → c ≡ d
At-unique sx sy x y s c d (cx, cy, _, _, ex, ey, ec) (dx, dy, _, _, fx, fy, fd) =
    let same_x : cx ≡ dx = omega (arith, ex, fx) in
    let same_y : cy ≡ dy = omega (arith, ey, fy) in
    ec ∙ ap (λ (n : ℕ). n * sx + cx) same_y ∙ ap (λ (n : ℕ). dy * sx + n) same_x ∙ sym fd

push_cell_cases :
    (sx sy x y ox oy dx dy : ℕ)
    → Small sx sy
    → x < sx
    → y < sy
    → Stands ox dx
    → Stands oy dy
    → ((push_cell sx sy x y (ox, oy) ≡ []) × ((c : ℕ) → At sx sy x y (dx, dy) c → ⊥))
      ⊎ ((c : ℕ) × (push_cell sx sy x y (ox, oy) ≡ c ∷ []) × At sx sy x y (dx, dy) c)
unfolding push_cell
push_cell_cases sx sy x y ox oy dx dy small hx hy tx ty =
    elim (inside_shift x sx ox dx small.0 hx tx) [
      | inr (ex, off) ↦ inl (ground (arith, ex), λ c (cx, cy, lx, ly, qx, qy, q). off cx lx qx)
      | inl (ex, lx, qx) ↦ elim (inside_shift y sy oy dy small.1 hy ty) [
        | inr (ey, off) ↦
            inl (ground (arith, ex, ey), λ c (cx, cy, lx', ly, qx', qy, q). off cy ly qy)
        | inl (ey, ly, qy) ↦ inr (
          (y + oy) % 2 ^ 32 * sx + (x + ox) % 2 ^ 32,
          rw (ex, ey)
              (ap (λ (n : ℕ). n ∷ [])
                (Small-mod ((x + ox) % 2 ^ 32) ((y + oy) % 2 ^ 32) sx sy small lx ly)),
          ((x + ox) % 2 ^ 32, (y + oy) % 2 ^ 32, lx, ly, qx, qy, refl),
        )
      ]
    ]

pub push_cell-At :
    (sx sy x y i c : ℕ)
    → Small sx sy
    → x < sx
    → y < sy
    → Elem c (push_cell sx sy x y (get_or nine_index_array i (0, 0))) ↔ At sx sy x y (shift i) c
push_cell-At sx sy x y i c small hx hy =
    elim (push_cell_cases sx sy x y (offset i).0 (offset i).1 (shift i).0 (shift i).1 small hx hy
      (offset-Stands i).0 (offset-Stands i).1) [
        | inl (e, none_at) ↦ (λ m. absurd (subst (Elem c) e m), λ a. absurd (none_at c a))
        | inr (d, e, a) ↦ (
          λ m. elim (subst (Elem c) e m) [
            | inl same ↦ subst (At sx sy x y (shift i)) (sym same) a
            | inr never ↦ absurd never
          ],
          λ b. subst (Elem c) (sym e) (inl (At-unique sx sy x y (shift i) c d b a)),
        )
      ]

-- Some index from `i` on, of `n`, lies at the cell.
abbrev pub Within : ℕ → ℕ → (ℕ → Type 0) → Type 0
Within i n P = (j : ℕ) × (i ≤ j) × (j < i + n) × P j

no_index : (i : ℕ) (P : ℕ → Type 0) → ⊥ ↔ Within i 0 P
no_index i P = (λ m. absurd m, λ (j, a, b, _). absurd (omega (arith, a, b)))

append_within :
    (xs ys : List ℕ) (c i n : ℕ) (P : ℕ → Type 0)
    → Elem c xs ↔ P i
    → Elem c ys ↔ Within (i + 1) n P
    → Elem c (xs ++ ys) ↔ Within i (suc n) P
append_within xs ys c i n P here rest = (
  λ m. elim (Elem-append_cases c xs ys m) [
    | inl h ↦ (i, omega arith, omega arith, here.0 h)
    | inr h ↦ let (j, a, b, t) = rest.0 h in (j, omega (arith, a), omega (arith, b), t)
  ],
  λ (j, a, b, t). elim (ℕ_discrete i j) [
    | yes e ↦ Elem-append_left c xs ys (here.1 (subst P (sym e) t))
    | no e ↦ Elem-append_right c xs ys (rest.1 (j, omega (arith, a, e), omega (arith, b), t))
  ],
)

pub nine_cells-At :
    (sx sy x y n i c : ℕ)
    → Small sx sy
    → x < sx
    → y < sy
    → Elem c (nine_cells sx sy x y n i) ↔ Within i n (λ j. At sx sy x y (shift j) c)
unfolding nine_cells
nine_cells-At sx sy x y zero i c small hx hy = no_index i (λ j. At sx sy x y (shift j) c)
nine_cells-At sx sy x y (suc n) i c small hx hy =
    append_within (push_cell sx sy x y (get_or nine_index_array i (0, 0)))
      (nine_cells sx sy x y n (i + 1)) c i n (λ j. At sx sy x y (shift j) c)
      (push_cell-At sx sy x y i c small hx hy) (nine_cells-At sx sy x y n (i + 1) c small hx hy)

pub side_cells-At :
    (sx sy x y dir n i c : ℕ)
    → Small sx sy
    → x < sx
    → y < sy
    → Elem c (side_cells sx sy x y dir n i)
      ↔ Within i n (λ j. At sx sy x y (shift ((j + dir) % 8)) c)
unfolding side_cells
side_cells-At sx sy x y dir zero i c small hx hy =
    no_index i (λ j. At sx sy x y (shift ((j + dir) % 8)) c)
side_cells-At sx sy x y dir (suc n) i c small hx hy =
    append_within (push_cell sx sy x y (get_or nine_index_array ((i + dir) % 8) (0, 0)))
      (side_cells sx sy x y dir n (i + 1)) c i n (λ j. At sx sy x y (shift ((j + dir) % 8)) c)
      (push_cell-At sx sy x y ((i + dir) % 8) c small hx hy)
      (side_cells-At sx sy x y dir n (i + 1) c small hx hy)
