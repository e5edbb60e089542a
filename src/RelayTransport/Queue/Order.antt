-- ===== src/RelayTransport/Queue/Order.antt =====
-- internal/relaytransport/queue.go: which row `ORDER BY priority DESC,rowid LIMIT 1` selects.
use mossward.Common.{
  ℕ, ◌≤◌, ◌<◌, ◌≡◌, refl, ap, subst, Bool, true, false, Option-cases, some, none, inl, inr, List,
  [], ◌∷◌, ◌++◌, arith, All, ltb, Bool-cases, ltb→lt,
}
use mossward.RelayTransport.Queue.Rows.{Row, select_first}

-- `row` passes `p`, every row before it that passes has a lower priority, and no row after it that
-- passes has a higher one.
pub record FirstBy (p : Row → Bool) (rows : List Row) (row : Row) : Type 0 where
  pub earlier : List Row
  pub later : List Row
  pub split : rows ≡ earlier ++ row ∷ later
  pub passes : p row ≡ true
  pub above : All (λ s. p s ≡ true → s.priority < row.priority) earlier
  pub beside : All (λ s. p s ≡ true → s.priority ≤ row.priority) later

abbrev pub NonePasses : (Row → Bool) → List Row → Type 0
NonePasses p = All (λ s. p s ≡ false)

pub select_first-NonePasses :
    (p : Row → Bool) (rows : List Row) → select_first p rows ≡ none → NonePasses p rows
unfolding select_first
select_first-NonePasses p [] h = tt
select_first-NonePasses p (r ∷ rs) h =
    ground (arith, select_first-NonePasses p rs, Option-cases (select_first p rs))

NonePasses-le :
    (p : Row → Bool) (n : ℕ) (rows : List Row)
    → NonePasses p rows
    → All (λ s. p s ≡ true → s.priority ≤ n) rows
NonePasses-le p n [] h = tt
NonePasses-le p n (r ∷ rs) h = (λ e. ground arith, NonePasses-le p n rs h.1)

-- Where the head loses or ties, the bound on the tail goes on to a higher priority.
raise :
    (p : Row → Bool) (m n : ℕ) (rows : List Row)
    → m ≤ n
    → All (λ s. p s ≡ true → s.priority ≤ m) rows
    → All (λ s. p s ≡ true → s.priority ≤ n) rows
raise p m n [] h a = tt
raise p m n (r ∷ rs) h a = (λ e. omega (arith, a.0 e), raise p m n rs h a.1)

lower :
    (p : Row → Bool) (n : ℕ) (rows : List Row)
    → All (λ s. p s ≡ true → s.priority < n) rows
    → All (λ s. p s ≡ true → s.priority ≤ n) rows
lower p n [] a = tt
lower p n (r ∷ rs) a = (λ e. omega (arith, a.0 e), lower p n rs a.1)

join :
    (p : Row → Bool) (n : ℕ) (xs : List Row) (r : Row) (ys : List Row)
    → All (λ s. p s ≡ true → s.priority ≤ n) xs
    → r.priority ≤ n
    → All (λ s. p s ≡ true → s.priority ≤ n) ys
    → All (λ s. p s ≡ true → s.priority ≤ n) (xs ++ r ∷ ys)
join p n [] r ys hx hr hy = (λ e. hr, hy)
join p n (x ∷ xs) r ys hx hr hy = (hx.0, join p n xs r ys hx.1 hr hy)

-- The row before all others, where it is at least as urgent as the best of them.
take_head :
    (p : Row → Bool) (r s : Row) (rs : List Row)
    → p r ≡ true
    → s.priority ≤ r.priority
    → FirstBy p rs s
    → FirstBy p (r ∷ rs) r
take_head p r s rs pr le b = record {
  earlier = [];
  later = rs;
  split = refl;
  passes = pr;
  above = tt;
  beside = rw b.split (
      join p r.priority b.earlier s b.later
        (raise p s.priority r.priority b.earlier le (lower p s.priority b.earlier b.above)) le
        (raise p s.priority r.priority b.later le b.beside));
}

only_head :
    (p : Row → Bool) (r : Row) (rs : List Row) → p r ≡ true → NonePasses p rs → FirstBy p (r ∷ rs) r
only_head p r rs pr h = record {
  earlier = [];
  later = rs;
  split = refl;
  passes = pr;
  above = tt;
  beside = NonePasses-le p r.priority rs h;
}

pass_head :
    (p : Row → Bool) (r s : Row) (rs : List Row)
    → (p r ≡ true → r.priority < s.priority)
    → FirstBy p rs s
    → FirstBy p (r ∷ rs) s
pass_head p r s rs lt b = record {
  earlier = r ∷ b.earlier;
  later = b.later;
  split = ap (◌∷◌ r) b.split;
  passes = b.passes;
  above = (lt, b.above);
  beside = b.beside;
}

-- The row that is selected is the first of the highest priority among those that pass.
pub select_first-FirstBy :
    (p : Row → Bool) (rows : List Row) (row : Row)
    → select_first p rows ≡ some row
    → FirstBy p rows row
unfolding select_first
select_first-FirstBy p [] row h = absurd (ground arith)
select_first-FirstBy p (r ∷ rs) row h = elim (Option-cases (select_first p rs)) [
  | inl e ↦ elim (Bool-cases (p r)) [
    | inl pr ↦
        subst (FirstBy p (r ∷ rs)) (ground (arith, e, pr))
          (only_head p r rs pr (select_first-NonePasses p rs e))
    | inr pr ↦ absurd (ground (arith, e, pr))
  ]
  | inr (s, e) ↦ elim (Bool-cases (p r)) [
    | inl pr ↦ elim (Bool-cases (ltb r.priority s.priority)) [
      | inl lt ↦
          subst (FirstBy p (r ∷ rs)) (ground (arith, e, pr, lt))
            (pass_head p r s rs (λ _. ltb→lt _ _ lt) (select_first-FirstBy p rs s e))
      | inr ge ↦
          subst (FirstBy p (r ∷ rs)) (ground (arith, e, pr, ge))
            (take_head p r s rs pr (ground (arith, ge)) (select_first-FirstBy p rs s e))
    ]
    | inr pr ↦
        subst (FirstBy p (r ∷ rs)) (ground (arith, e, pr)) (
          pass_head p r s rs (λ e'. absurd (ground (arith, pr, e')))
            (select_first-FirstBy p rs s e))
  ]
]
