-- ===== src/ExitCheckAnalyzer/Reports.antt =====
-- What the analyzer reports, told without its loops.
use go_metrics_harvester.Base.{
  ℕ, String, ◌≡◌, ◌≢◌, ◌⊎◌, inl, inr, refl, true, false, String-cases, Option, none, some, List, [],
  ◌∷◌, ◌++◌,
}
use go_metrics_harvester.ExitCheckAnalyzer.{
  Expr, selector_expr, call_expr, other_expr, Exprs, no_exprs, exprs, Stmt, expr_stmt, other_stmt,
  Decl, func_decl, gen_decl, is_no_run, check_run_in_argument, report, report_all,
  func_decl_reports, inspect, both_reports, each, run,
}

-- A call of something's Run.
abbrev pub IsRun : Expr → Type 0
IsRun (call_expr (selector_expr _ sel) _) = sel ≡ "Run"
IsRun _ = ⊥

unfoldable pub HasNoRun : Exprs → Type 0
HasNoRun no_exprs = Unit {0}
HasNoRun (exprs arg args) = (¬ IsRun arg) × HasNoRun args

-- A statement that is a call of something's Exit without a call of a Run among the arguments.
abbrev pub IsExit : Stmt → Type 0
IsExit (expr_stmt _ (call_expr (selector_expr _ sel) args)) = (sel ≡ "Exit") × HasNoRun args
IsExit _ = ⊥

abbrev pub position : Stmt → ℕ
position (expr_stmt pos _) = pos
position other_stmt = 0

-- What a statement adds to the reports.
pub data StmtReports (stmt : Stmt) : List ℕ → Type 0 where
  exits : IsExit stmt → StmtReports stmt (position stmt ∷ [])
  passes : ¬ IsExit stmt → StmtReports stmt []

-- The reports of the elements of a list, in its order.
pub data InOrder {A : Type 0} (R : A → List ℕ → Type 0) : List A → List ℕ → Type 0 where
  done : InOrder R [] []
  next : {a : A} {l : List A} {r s : List ℕ} → R a r → InOrder R l s → InOrder R (a ∷ l) (r ++ s)

-- What a declaration adds: the reports of the body of a function main.
pub data DeclReports : Decl → List ℕ → Type 0 where
  in_main :
      {name : String} {body : List Stmt} {r : List ℕ}
      → name ≡ "main"
      → InOrder StmtReports body r
      → DeclReports (func_decl name (some body)) r
  other_func :
      {name : String} {body : Option (List Stmt)}
      → name ≢ "main"
      → DeclReports (func_decl name body) []
  no_func : DeclReports gen_decl []

-- A function main that is declared without a body.
abbrev pub IsBodyless : Decl → Type 0
IsBodyless (func_decl name none) = name ≡ "main"
IsBodyless _ = ⊥

pub data Somewhere {A : Type 0} (P : A → Type 0) : List A → Type 0 where
  here : {a : A} {l : List A} → P a → Somewhere P (a ∷ l)
  there : {a : A} {l : List A} → Somewhere P l → Somewhere P (a ∷ l)

-- What a run comes to: its reports, or a panic and where it comes from.
pub data Inspected {A : Type 0} (R : A → List ℕ → Type 0) (P : A → Type 0) (a : A)
    : Option (List ℕ) → Type 0 where
  reports : {r : List ℕ} → R a r → Inspected R P a (some r)
  panics : P a → Inspected R P a none

is_no_run-cases :
    (arg : Expr) → (IsRun arg × (is_no_run arg ≡ false)) ⊎ ((¬ IsRun arg) × (is_no_run arg ≡ true))
unfolding is_no_run
is_no_run-cases (call_expr (selector_expr x sel) args) = elim (String-cases sel "Run") [
  | inl (p, e) ↦ inl (p, rw e refl)
  | inr (ne, e) ↦ inr (ne, rw e refl)
]
is_no_run-cases (call_expr (call_expr x y) args) = inr (λ h. h, refl)
is_no_run-cases (call_expr other_expr args) = inr (λ h. h, refl)
is_no_run-cases (selector_expr x sel) = inr (λ h. h, refl)
is_no_run-cases other_expr = inr (λ h. h, refl)

check_run_in_argument-cases :
    (args : Exprs)
    → (HasNoRun args × (check_run_in_argument args ≡ true))
      ⊎ ((¬ HasNoRun args) × (check_run_in_argument args ≡ false))
unfolding check_run_in_argument HasNoRun
check_run_in_argument-cases no_exprs = inl (tt, refl)
check_run_in_argument-cases (exprs arg args) = elim (is_no_run-cases arg) [
  | inl (h, e) ↦ inr (λ q. q.0 h, rw e refl)
  | inr (quiet, e) ↦ elim (check_run_in_argument-cases args) [
    | inl (h, e') ↦ inl ((quiet, h), rw (e, e') refl)
    | inr (h, e') ↦ inr (λ q. h q.1, rw (e, e') refl)
  ]
]

report-StmtReports : (stmt : Stmt) → StmtReports stmt (report stmt)
unfolding report
report-StmtReports (expr_stmt pos (call_expr (selector_expr x sel) args)) =
    elim (String-cases sel "Exit") [
      | inl (p, e) ↦ elim (check_run_in_argument-cases args) [
        | inl (h, e') ↦ rw (e, e') (exits (p, h))
        | inr (h, e') ↦ rw (e, e') (passes λ q. h q.1)
      ]
      | inr (ne, e) ↦ rw e (passes λ q. ne q.0)
    ]
report-StmtReports (expr_stmt pos (call_expr (call_expr x y) args)) = passes λ h. h
report-StmtReports (expr_stmt pos (call_expr other_expr args)) = passes λ h. h
report-StmtReports (expr_stmt pos (selector_expr x sel)) = passes λ h. h
report-StmtReports (expr_stmt pos other_expr) = passes λ h. h
report-StmtReports other_stmt = passes λ h. h

report_all-InOrder : (body : List Stmt) → InOrder StmtReports body (report_all body)
unfolding report_all
report_all-InOrder [] = done
report_all-InOrder (stmt ∷ body) = next (report-StmtReports stmt) (report_all-InOrder body)

func_decl-Inspected :
    (name : String) (body : Option (List Stmt))
    → Inspected DeclReports IsBodyless (func_decl name body) (func_decl_reports name body)
unfolding func_decl_reports
func_decl-Inspected name none = elim (String-cases name "main") [
  | inl (p, e) ↦ rw e (panics p)
  | inr (ne, e) ↦ rw e (reports (other_func ne))
]
func_decl-Inspected name (some body) = elim (String-cases name "main") [
  | inl (p, e) ↦ rw e (reports (in_main p (report_all-InOrder body)))
  | inr (ne, e) ↦ rw e (reports (other_func ne))
]

inspect-Inspected : (decl : Decl) → Inspected DeclReports IsBodyless decl (inspect decl)
unfolding inspect
inspect-Inspected (func_decl name body) = func_decl-Inspected name body
inspect-Inspected gen_decl = reports no_func

module _ {A : Type 0} (R : A → List ℕ → Type 0) (P : A → Type 0) where
  both_reports-Inspected :
      (a : A) (l : List A) (r s : Option (List ℕ))
      → Inspected R P a r
      → Inspected (InOrder R) (Somewhere P) l s
      → Inspected (InOrder R) (Somewhere P) (a ∷ l) (both_reports r s)
  both_reports-Inspected a l none s (panics h) rest = panics (here h)
  both_reports-Inspected a l (some r) none (reports h) (panics q) = panics (there q)
  both_reports-Inspected a l (some r) (some s) (reports h) (reports q) = reports (next h q)

  each-Inspected :
      (f : A → Option (List ℕ))
      → ((a : A) → Inspected R P a (f a))
      → (l : List A) → Inspected (InOrder R) (Somewhere P) l (each f l)
  unfolding each
  each-Inspected f h [] = reports done
  each-Inspected f h (a ∷ l) =
      both_reports-Inspected a l (f a) (each f l) (h a) (each-Inspected f h l)

-- On any files the analyzer either reports, file by file and in the order of the text, exactly the
-- statements of the body of a function or method main that are themselves a call of a selector Exit
-- without a call of a selector Run among its arguments, each once and at its own position, or it
-- panics, and then some function or method main is declared without a body.
pub run-Inspected :
    (files : List (List Decl))
    → Inspected (InOrder (InOrder DeclReports)) (Somewhere (Somewhere IsBodyless)) files (run files)
unfolding run
run-Inspected files =
    each-Inspected (InOrder DeclReports) (Somewhere IsBodyless) (each inspect)
      (each-Inspected DeclReports IsBodyless inspect inspect-Inspected) files
