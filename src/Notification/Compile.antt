-- ===== src/Notification/Compile.antt =====
-- internal/notification/types.go: `CompileExpressions`, which compiles the texts of a rule.
use dozzle_gaia_fork.Common.{
  String, Bool, not, ◌&&◌, ◌||◌, Option, none, some, is_some, if◌then◌else◌,
}
use dozzle_gaia_fork.Common.Text.{is_empty}
use dozzle_gaia_fork.Notification.Rule.{Expr, Rule}
use dozzle_gaia_fork.Notification.Types.{Values}

-- Which text did not compile.
pub data CompileError : Type 0 where
  bad_container bad_log bad_metric bad_event bad_watchdog bad_unique : CompileError

pub data Checked (A : Type 0) : Type 0 where
  good : A → Checked A
  bad : CompileError → Checked A

infixl 5 ◌>>=◌
abbrev pub ◌>>=◌ : {A B : Type 0} → Checked A → (A → Checked B) → Checked B
good a >>= f = f a
bad err >>= f = bad err

-- A program that is compiled, or the error.
abbrev pub compiled : {A B : Type 0} → CompileError → Option A → (A → B) → Checked B
compiled err none set = bad err
compiled err (some p) set = good (set p)

-- The same for a text that may be empty, which leaves the rule as it is.
abbrev pub compile_text :
    {A B : Type 0} → CompileError → String → (String → Option A) → B → (A → B) → Checked B
compile_text err text compile r set =
    if is_empty text then good r else compiled err (compile text) set

-- The program, or the old one where the text does not compile.
abbrev pub compiled_or : {A : Type 0} → Option A → Option A → Option A
compiled_or none old = old
compiled_or (some p) old = some p

module _ {V : Values} {E : Expr V} where
  -- The watchdog pattern with its programs: for lines, for events, or for both.
  abbrev with_watchdog : Rule E → Rule E
  with_watchdog r = record r {
    watchdog_program =
        if not (is_empty r.log_expression) || is_empty r.event_expression
        then compiled_or (E.compile_log r.watchdog_pattern) r.watchdog_program
        else r.watchdog_program;
    watchdog_event_program =
        if not (is_empty r.event_expression)
        then compiled_or (E.compile_event r.watchdog_pattern) r.watchdog_event_program
        else r.watchdog_event_program;
  }

  -- The program that the rule needs is missing.
  abbrev lacks_watchdog : Rule E → Bool
  lacks_watchdog r =
      not (is_empty r.log_expression) && not (is_some r.watchdog_program)
      || (not (is_empty r.event_expression) && not (is_some r.watchdog_event_program)
          || is_empty r.log_expression
            && is_empty r.event_expression
            && not (is_some r.watchdog_program)
            && not (is_some r.watchdog_event_program))

  unfoldable pub compile_watchdog : Rule E → Checked (Rule E)
  compile_watchdog r =
      if is_empty r.watchdog_pattern
      then good r
      else if lacks_watchdog (with_watchdog r)
      then bad bad_watchdog
      else good (with_watchdog r)

  unfoldable pub compile_expressions : Rule E → Checked (Rule E)
  unfolding compile_watchdog
  compile_expressions r =
      compile_text bad_container r.container_expression E.compile_container r
        (λ p. record r { container_program = some p })
      >>= (λ r.
          compile_text bad_log r.log_expression E.compile_log r
            (λ p. record r { log_program = some p }))
      >>= (λ r.
          compile_text bad_metric r.metric_expression E.compile_stat r
            (λ p. record r { metric_program = some p }))
      >>= (λ r.
          compile_text bad_event r.event_expression E.compile_event r
            (λ p. record r { event_program = some p }))
      >>= compile_watchdog
      >>= (λ r.
          compile_text bad_unique r.unique_key_regex E.compile_regexp r
            (λ p. record r { unique_regex = some p }))
