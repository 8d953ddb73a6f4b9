-- ===== src/Tests/Syntax.antt =====
-- Files of one function main for the analyzer.
use go_metrics_harvester.Base.{◌≡◌, refl, none, some, List, [], ◌∷◌}
use go_metrics_harvester.ExitCheckAnalyzer.{
  selector_expr, call_expr, other_expr, no_exprs, exprs, Stmt, expr_stmt, other_stmt, Decl,
  func_decl, gen_decl, is_no_run, check_run_in_argument, report, report_all, func_decl_reports,
  inspect, each, run,
}
use go_metrics_harvester.ExitCheckAnalyzer.Reports.{
  DeclReports, IsBodyless, InOrder, Somewhere, Inspected, run-Inspected,
}

-- os.Exit(1) at 7, os.Exit(m.Run()) at 8, and a statement that is no expression.
abbrev body : List Stmt
body =
    expr_stmt 7 (call_expr (selector_expr other_expr "Exit") (exprs other_expr no_exprs))
    ∷ expr_stmt 8 (
        call_expr (selector_expr other_expr "Exit")
          (exprs (call_expr (selector_expr other_expr "Run") no_exprs) no_exprs))
    ∷ other_stmt
    ∷ []

abbrev program : List (List Decl)
program = (gen_decl ∷ func_decl "helper" none ∷ func_decl "main" (some body) ∷ []) ∷ []

run_reports : run program ≡ some (7 ∷ [])
unfolding run each inspect func_decl_reports report_all report check_run_in_argument is_no_run
run_reports = refl

run_panics : run ((func_decl "main" none ∷ []) ∷ []) ≡ none
unfolding run each inspect func_decl_reports
run_panics = refl

run-Inspected_example :
    Inspected
      (InOrder (InOrder DeclReports))
      (Somewhere (Somewhere IsBodyless))
      program
      (run program)
run-Inspected_example = run-Inspected program
