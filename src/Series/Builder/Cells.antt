-- ===== src/Series/Builder/Cells.antt =====
-- The cells of an answer against all the rows that were added, newest first.
use lss.Base.{
  ℕ, zero, suc, ◌≤◌, ◌≡◌, refl, ap, ◌∙◌, inl, inr, String, Option, none, some, Bool, true, false,
  ◌&&◌, ◌||◌, List, [], ◌∷◌, map, arith, ltb, ◌==◌, str_eq, if◌then◌else◌, get_elem?, Bool-cases,
}
use lss.Base.Float.{F64}
use lss.Series.{Agg, merge, Plan}
use lss.Series.Builder.Times.{falls, in_range, lies, spanned, falls-lies, in_range-spanned}
use lss.Series.Builder.{
  Token, cell_of, Row, SeriesBuilder, empty_cells, new_row, new_builder, merge_cell, put, add_row,
  add_at, add,
}

map-same : {A : Type 0} (l : List A) → l ≡ map (λ a. a) l
map-same [] = refl
map-same (a ∷ l) = ap (λ m. a ∷ m) (map-same l)

map-map :
    {A B C : Type 0} (f : B → C) (g : A → B) (l : List A) → map f (map g l) ≡ map (λ a. f (g a)) l
map-map f g [] = refl
map-map f g (a ∷ l) = ap (λ m. f (g a) ∷ m) (map-map f g l)

module _ (F : F64) where
  open F use {Float, plus, fmin, fmax}

  pub record Addition : Type 0 where
    pub metric : String
    pub ts : ℕ
    pub agg : Agg F

  module _ (p : Plan) where
    unfoldable pub run : List Token → List Addition → SeriesBuilder F
    run tokens [] = new_builder F p tokens
    run tokens (x ∷ h) = add F (run tokens h) x.metric x.ts x.agg

    -- what was added to a metric in one cell, newest first
    pub collected : String → ℕ → List Addition → List (Agg F)
    unfolding lies
    collected metric i [] = []
    collected metric i (x ∷ h) =
        let rest = collected metric i h in
        if str_eq metric x.metric && lies p i x.ts then x.agg ∷ rest else rest

    -- a number of each aggregate, combined from the first that was added on
    pub combined : (Float → Float → Float) → (Agg F → Float) → List (Agg F) → Agg F → Float
    combined op of [] a = of a
    combined op of (b ∷ l) a = op (combined op of l b) (of a)

    pub folded : List (Agg F) → Option (Agg F)
    unfolding combined
    folded [] = none
    folded (a ∷ l) = some (record {
      sum = combined plus (λ (a : Agg F). a.sum) l a;
      lowest = combined fmin (λ (a : Agg F). a.lowest) l a;
      highest = combined fmax (λ (a : Agg F). a.highest) l a;
      n = combined plus (λ (a : Agg F). a.n) l a;
    })

    folded-cons : (a : Agg F) (l : List (Agg F)) → some (merge_cell F (folded l) a) ≡ folded (a ∷ l)
    unfolding folded combined merge_cell merge
    folded-cons a [] = refl
    folded-cons a (b ∷ l) = refl

    pub is_seen : String → List Addition → Bool
    unfolding spanned
    is_seen metric [] = false
    is_seen metric (x ∷ h) =
        let rest = is_seen metric h in rest || (str_eq metric x.metric && spanned p x.ts)

    -- what one addition does to one row
    abbrev row_step : Option ℕ → Addition → Row F → Row F
    row_step none x r = r
    row_step (some i) x r = add_row F x.metric i x.agg r

    pub row_after : Token → List Addition → Row F
    row_after t [] = new_row F p t
    row_after t (x ∷ h) = row_step (cell_of p x.ts) x (row_after t h)

    add_at-plan :
        (metric : String) (a : Agg F) (o : Option ℕ) (b : SeriesBuilder F)
        → (add_at F metric a o b).plan ≡ b.plan
    unfolding add_at
    add_at-plan metric a none b = refl
    add_at-plan metric a (some i) b = refl

    add_at-rows :
        (x : Addition) (o : Option ℕ) (b : SeriesBuilder F)
        → (add_at F x.metric x.agg o b).rows ≡ map (row_step o x) b.rows
    unfolding add_at
    add_at-rows x none b = map-same b.rows
    add_at-rows x (some i) b = refl

    run-plan : (tokens : List Token) (h : List Addition) → (run tokens h).plan ≡ p
    unfolding run new_builder add
    run-plan tokens [] = refl
    run-plan tokens (x ∷ h) =
        add_at-plan x.metric x.agg (cell_of (run tokens h).plan x.ts) (run tokens h)
        ∙ run-plan tokens h

    run-rows :
        (tokens : List Token) (h : List Addition)
        → (run tokens h).rows ≡ map (λ t. row_after t h) tokens
    unfolding run new_builder add row_after
    run-rows tokens [] = refl
    run-rows tokens (x ∷ h) =
        add_at-rows x (cell_of (run tokens h).plan x.ts) (run tokens h)
        ∙ ap (λ q. map (row_step (cell_of q x.ts) x) (run tokens h).rows) (run-plan tokens h)
        ∙ ap (map (row_step (cell_of p x.ts) x)) (run-rows tokens h)
        ∙ map-map (row_step (cell_of p x.ts) x) (λ t. row_after t h) tokens

    -- what an addition to the cell `i`, or to another one, does to a cell
    abbrev changed : Bool → Agg F → Option (Option (Agg F)) → Option (Option (Agg F))
    changed b a none = none
    changed b a (some c) = some (if b then some (merge_cell F c a) else c)

    unchanged : (b : Bool) (a : Agg F) (o : Option (Option (Agg F))) → o ≡ changed (b && false) a o
    unchanged true a none = refl
    unchanged true a (some c) = refl
    unchanged false a none = refl
    unchanged false a (some c) = refl

    get_elem?-put :
        (cs : List (Option (Agg F))) (j i : ℕ) (a : Agg F)
        → get_elem? (put F cs j a) i ≡ changed (j == i) a (get_elem? cs i)
    unfolding put
    get_elem?-put [] j i a = refl
    get_elem?-put (c ∷ cs) zero zero a = refl
    get_elem?-put (c ∷ cs) zero (suc i) a = ground arith
    get_elem?-put (c ∷ cs) (suc j) zero a = ground arith
    get_elem?-put (c ∷ cs) (suc j) (suc i) a = ground (arith, get_elem?-put cs j i a)

    get_elem?-empty :
        (n i : ℕ) → get_elem? (empty_cells F n) i ≡ (if ltb i n then some none else none)
    unfolding empty_cells
    get_elem?-empty zero i = ground arith
    get_elem?-empty (suc n) zero = ground arith
    get_elem?-empty (suc n) (suc i) = ground (arith, get_elem?-empty n i)

    row_step-token : (o : Option ℕ) (x : Addition) (r : Row F) → (row_step o x r).token ≡ r.token
    unfolding add_row
    row_step-token none x r = refl
    row_step-token (some i) x r = elim (Bool-cases (str_eq r.token.1.0 x.metric)) [
      | inl s ↦ rw s refl
      | inr s ↦ rw s refl
    ]

    row_step-cells :
        (o : Option ℕ) (x : Addition) (r : Row F) (i : ℕ)
        → get_elem? (row_step o x r).cells i
          ≡ changed (str_eq r.token.1.0 x.metric && falls o i) x.agg (get_elem? r.cells i)
    unfolding add_row falls
    row_step-cells none x r i = unchanged (str_eq r.token.1.0 x.metric) x.agg (get_elem? r.cells i)
    row_step-cells (some j) x r i = elim (Bool-cases (str_eq r.token.1.0 x.metric)) [
      | inl s ↦ rw s (get_elem?-put r.cells j i x.agg)
      | inr s ↦ rw s (unchanged false x.agg (get_elem? r.cells i))
    ]

    row_step-seen :
        (o : Option ℕ) (x : Addition) (r : Row F)
        → (row_step o x r).seen ≡ (r.seen || (str_eq r.token.1.0 x.metric && in_range o))
    unfolding add_row in_range
    row_step-seen none x r = ground arith
    row_step-seen (some i) x r = elim (Bool-cases (str_eq r.token.1.0 x.metric)) [
      | inl s ↦ rw s (ground arith)
      | inr s ↦ rw s (ground arith)
    ]

    token-row_after : (t : Token) (h : List Addition) → (row_after t h).token ≡ t
    unfolding row_after new_row add_row
    token-row_after t [] = refl
    token-row_after t (x ∷ h) =
        row_step-token (cell_of p x.ts) x (row_after t h) ∙ token-row_after t h

    -- an addition changes the cells that have a point, each by what it collects
    changed-folded :
        (b b' c : Bool) (a : Agg F) (l : List (Agg F))
        → (c ≡ true → b ≡ b')
        → changed b a (if c then some (folded l) else none)
          ≡ (if c then some (folded (if b' then a ∷ l else l)) else none)
    changed-folded b b' false a l h = refl
    changed-folded true true true a l h = ap some (folded-cons a l)
    changed-folded false false true a l h = refl
    changed-folded true false true a l h = absurd (ground (arith, h refl))
    changed-folded false true true a l h = absurd (ground (arith, h refl))

    module _ (positive : 1 ≤ p.step_s) where
      cells-row_after :
          (t : Token) (h : List Addition) (i : ℕ)
          → get_elem? (row_after t h).cells i
            ≡ (if ltb i p.points then some (folded (collected t.1.0 i h)) else none)
      unfolding row_after new_row collected folded
      cells-row_after t [] i = get_elem?-empty p.points i
      cells-row_after t (x ∷ h) i =
          row_step-cells (cell_of p x.ts) x (row_after t h) i
          ∙ ap
              (λ k.
                changed (str_eq k x.metric && falls (cell_of p x.ts) i) x.agg
                  (get_elem? (row_after t h).cells i))
              (ap (λ (k : Token). k.1.0) (token-row_after t h))
          ∙ ap (changed (str_eq t.1.0 x.metric && falls (cell_of p x.ts) i) x.agg)
              (cells-row_after t h i)
          ∙ changed-folded (str_eq t.1.0 x.metric && falls (cell_of p x.ts) i)
              (str_eq t.1.0 x.metric && lies p i x.ts) (ltb i p.points) x.agg (collected t.1.0 i h)
              (λ k. ap (λ b. str_eq t.1.0 x.metric && b) (falls-lies p i x.ts positive k))

      seen-row_after : (t : Token) (h : List Addition) → (row_after t h).seen ≡ is_seen t.1.0 h
      unfolding row_after new_row is_seen
      seen-row_after t [] = refl
      seen-row_after t (x ∷ h) =
          row_step-seen (cell_of p x.ts) x (row_after t h)
          ∙ rw (token-row_after t h, seen-row_after t h, in_range-spanned p x.ts positive) refl

      -- If the step of the plan is not zero, then after any additions an answer has one row for each
      -- requested token, in the order of the request. Its i-th cell, for each of the points of the
      -- plan, holds exactly the sums, the least and the greatest of what was added to the token's
      -- metric at the times of the i-th step from the start, and nothing else; and the token counts as
      -- known exactly when something was added to its metric at a time in the range of the plan.
      pub cells_exact :
          (tokens : List Token) (h : List Addition)
          → ((run tokens h).rows ≡ map (λ t. row_after t h) tokens)
            × ((t : Token) (i : ℕ)
                → get_elem? (row_after t h).cells i
                  ≡ (if ltb i p.points then some (folded (collected t.1.0 i h)) else none))
            × ((t : Token) → (row_after t h).token ≡ t)
            × ((t : Token) → (row_after t h).seen ≡ is_seen t.1.0 h)
      cells_exact tokens h = (
        run-rows tokens h,
        λ t i. cells-row_after t h i,
        λ t. token-row_after t h,
        λ t. seen-row_after t h,
      )
