-- ===== src/Strategy/Runner/Geometry.antt =====
-- The cells of a refine: its points, their thinning, the joining of legs and the heading at a leg's end.
use agentsimjs.Prelude.{
  ℕ, zero, suc, ◌+◌, ◌-◌, ◌/◌, ◌%◌, ◌&&◌, List, [], ◌∷◌, ◌++◌, Option, none, some, ltb, ◌==◌,
  length, get_or, if◌then◌else◌,
}
use agentsimjs.Strategy.{max_legs}

-- `cells.at(-1)`
unfoldable pub at_last : List ℕ → Option ℕ
at_last [] = none
at_last (c ∷ []) = some c
at_last (c ∷ d ∷ cs) = at_last (d ∷ cs)

unfoldable pub at_second_last : List ℕ → Option ℕ
at_second_last [] = none
at_second_last (c ∷ []) = none
at_second_last (c ∷ d ∷ []) = some c
at_second_last (c ∷ d ∷ e ∷ cs) = at_second_last (d ∷ e ∷ cs)

-- DIR_DX and DIR_DY of the 8-direction table, each entry as what it adds and what it takes away
abbrev directions : List ((ℕ × ℕ) × (ℕ × ℕ))
directions =
    ((1, 0), (0, 0))
    ∷ ((1, 0), (1, 0))
    ∷ ((0, 0), (1, 0))
    ∷ ((0, 1), (1, 0))
    ∷ ((0, 1), (0, 0))
    ∷ ((0, 1), (0, 1))
    ∷ ((0, 0), (0, 1))
    ∷ ((1, 0), (0, 1))
    ∷ []

-- the first direction, from number `d` on, that leads from one cell to the other
abbrev direction_of : ℕ → List ((ℕ × ℕ) × (ℕ × ℕ)) → ℕ → ℕ → ℕ → ℕ → Option ℕ
direction_of d [] xa ya xb yb = none
direction_of d (((px, mx), (py, my)) ∷ ds) xa ya xb yb =
    if (xb + mx == xa + px) && (yb + my == ya + py)
    then some d
    else direction_of (suc d) ds xa ya xb yb

unfoldable pub heading_of : List ℕ → ℕ → Option ℕ
unfolding at_last at_second_last
heading_of cells size_x = elim (at_last cells) [
  | none ↦ none
  | some b ↦ elim (at_second_last cells) [
    | none ↦ none
    | some a ↦ direction_of 0 directions (a % size_x) (a / size_x) (b % size_x) (b / size_x)
  ]
]

-- the points after `previous` that are not equal to the one before them
unfoldable pub distinct_after : ℕ → List ℕ → List ℕ
distinct_after previous [] = []
distinct_after previous (c ∷ cs) =
    let rest = distinct_after c cs in if c == previous then rest else c ∷ rest

unfoldable pub distinct : List ℕ → List ℕ
unfolding distinct_after
distinct [] = []
distinct (c ∷ cs) = c ∷ distinct_after c cs

-- `for (let i …; i < legs; i += stride) kept.push(points[i] ?? from)`, on fuel
unfoldable pub every : ℕ → ℕ → ℕ → ℕ → List ℕ → ℕ → List ℕ
every zero i legs stride points from = []
every (suc fuel) i legs stride points from =
    let rest = every fuel (i + stride) legs stride points from in
    if ltb i legs then get_or points i from ∷ rest else []

-- the smallest stride that leaves at most the limit's legs
abbrev pub stride_of : ℕ → ℕ
stride_of legs = (legs + (max_legs - 1)) / max_legs

-- A stride is at least 1, so that as many rounds as there are legs suffice.
unfoldable pub thin : ℕ → List ℕ → ℕ → ℕ → List ℕ
unfolding every
thin legs points from to =
    every legs 0 legs (stride_of legs) points from ++ get_or points legs to ∷ []

-- the points of a coarse path, thinned where the legs between them are too many
unfoldable pub points_of : List ℕ → ℕ → ℕ → List ℕ
unfolding thin
points_of ps from to =
    let legs = length ps - 1 in if ltb max_legs legs then thin legs ps from to else ps

unfoldable pub push_cell : List ℕ → ℕ → List ℕ
unfolding at_last
push_cell cells c = elim (at_last cells) [
  | none ↦ cells ++ c ∷ []
  | some b ↦ if b == c then cells else cells ++ c ∷ []
]

unfoldable pub push_cells : List ℕ → List ℕ → List ℕ
unfolding push_cell
push_cells cells [] = cells
push_cells cells (c ∷ cs) = push_cells (push_cell cells c) cs
