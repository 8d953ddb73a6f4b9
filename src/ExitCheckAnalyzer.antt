-- ===== src/ExitCheckAnalyzer.antt =====
-- pkg/exitcheckanalyzer/exitcheckanalyzer.go: the analyzer, over the shapes of syntax that it tells
-- apart.
pub mod Reports
use go_metrics_harvester.Base.{
  ℕ, String, Bool, true, false, Option, none, some, List, [], ◌∷◌, ◌++◌, ◌==◌, if◌then◌else◌,
}
use mathlib.Core.Option

-- An expression of go/ast, and the arguments of a call.
mutual
  pub data Expr : Type 0 where
    selector_expr : Expr → String → Expr
    call_expr : Expr → Exprs → Expr
    other_expr : Expr

  pub data Exprs : Type 0 where
    no_exprs : Exprs
    exprs : Expr → Exprs → Exprs

-- A statement of a body: the first with its position.
pub data Stmt : Type 0 where
  expr_stmt : ℕ → Expr → Stmt
  other_stmt : Stmt

-- A declaration of a file. A function has its name, and its body if it has one here.
pub data Decl : Type 0 where
  func_decl : String → Option (List Stmt) → Decl
  gen_decl : Decl

-- Whether an argument is no call of a selector Run.
unfoldable pub is_no_run : Expr → Bool
is_no_run (call_expr (selector_expr _ sel) _) = if sel == "Run" then false else true
is_no_run _ = true

unfoldable pub check_run_in_argument : Exprs → Bool
unfolding is_no_run
check_run_in_argument no_exprs = true
check_run_in_argument (exprs arg args) =
    let rest = check_run_in_argument args in if is_no_run arg then rest else false

-- What one round of the loop over a body reports.
unfoldable pub report : Stmt → List ℕ
unfolding check_run_in_argument
report (expr_stmt pos (call_expr (selector_expr _ sel) args)) =
    if sel == "Exit" then if check_run_in_argument args then pos ∷ [] else [] else []
report _ = []

unfoldable pub report_all : List Stmt → List ℕ
unfolding report
report_all [] = []
report_all (stmt ∷ list) = report stmt ++ report_all list

-- funcDecl: a function without a body has no list of statements to read, which is a panic.
unfoldable pub func_decl_reports : String → Option (List Stmt) → Option (List ℕ)
unfolding report_all
func_decl_reports name body = if name == "main" then Option.map report_all body else some []

-- What ast.Inspect calls for a declaration. It goes into the body too, which holds no declaration of
-- a function.
unfoldable pub inspect : Decl → Option (List ℕ)
unfolding func_decl_reports
inspect (func_decl name body) = func_decl_reports name body
inspect gen_decl = some []

abbrev pub both_reports : Option (List ℕ) → Option (List ℕ) → Option (List ℕ)
both_reports none rest = none
both_reports (some l) rest = Option.map (λ l'. l ++ l') rest

-- One after the other; none is a panic.
unfoldable pub each : {A : Type 0} → (A → Option (List ℕ)) → List A → Option (List ℕ)
each f [] = some []
each f (a ∷ l) = both_reports (f a) (each f l)

unfoldable pub run : List (List Decl) → Option (List ℕ)
unfolding inspect each
run files = each (each inspect) files
