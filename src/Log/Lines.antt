-- ===== src/Log/Lines.antt =====
-- The macro `GH_LOG_I`: a `for` loop whose body is the user's expression.
use gee_h.Prelude.{
  ℕ, zero, suc, ◌≡◌, refl, ap, Bool-cases, inl, inr, Bool, true, false, ◌||◌, List, [], ◌∷◌, ◌++◌,
  some, if◌then◌else◌,
}
use gee_h.Candidate.Query.{is_empty}
use gee_h.Log.{
  Severity, trace, debug, info, notice, warning, error, critical, alert, fatal, int_of, names,
  element, print_severity, below, Logged, Log, log_to_all, log_to_sinks, write, Logger, name_of,
  open_logger, location, write_to, level_compile_time_disabled, DisabledLogger, open_disabled,
  disabled_bool, disabled_write_to,
}

-- The loop's state: the logger, what the sinks got, and how often the user's expression was
-- evaluated.
pub record Round : Type 0 where
  pub logger : Logger
  pub logged : List Logged
  pub evaluated : ℕ

-- The body, which appends the text of the user's expression, and `write_to` after it.
unfoldable pub one_round : List ℕ → Log → Round → Round
unfolding write_to
one_round text lg r =
    let (l, out) = write_to lg (record r.logger { os = r.logger.os ++ text }) in
    record { logger = l; logged = r.logged ++ out; evaluated = suc r.evaluated }

-- The loop on fuel; whether it ended.
unfoldable pub log_loop : ℕ → List ℕ → Log → Round → Round × Bool
unfolding one_round
log_loop zero text lg r = (r, false)
log_loop (suc n) text lg r =
    let rest = log_loop n text lg (one_round text lg r) in
    if r.logger.closed then (r, true) else rest

-- The loop with the other logger, whose condition is never true; the user's expression goes to a
-- stream that does nothing.
unfoldable pub disabled_loop : ℕ → Log → DisabledLogger → List Logged × ℕ × Bool
unfolding disabled_bool disabled_write_to
disabled_loop zero lg l = ([], 0, false)
disabled_loop (suc n) lg l =
    let (logged, evaluated, ended) = disabled_loop n lg l in
    if disabled_bool l
    then (disabled_write_to lg l ++ logged, suc evaluated, ended)
    else ([], 0, true)

-- The macro: what the sinks got, how often the expression was evaluated, and whether it ended.
unfoldable pub log_line : ℕ → Severity → List ℕ → List ℕ → ℕ → List ℕ → Log → List Logged × ℕ × Bool
unfolding log_loop open_logger level_compile_time_disabled open_disabled disabled_loop
log_line fuel level function filename lineno text lg =
    let l = open_logger level function filename lineno lg in
    let (r, ended) = log_loop fuel text lg (record { logger = l; logged = []; evaluated = 0 }) in
    let off = disabled_loop fuel lg (open_disabled level function filename lineno lg) in
    if level_compile_time_disabled level then off else (r.logged, r.evaluated, ended)

-- What every sink gets if the message is enabled.
abbrev pub line : Severity → List ℕ → List ℕ → ℕ → List ℕ → List ℕ
line level function filename lineno text =
    ((b'[' ∷ name_of (element names (int_of level)) ++ b']' ∷ b' ' ∷ []) ++ text)
    ++ location (record {
      os = [];
      sev = level;
      function = function;
      filename = filename;
      lineno = lineno;
      closed = false;
    })

-- The array of names has an element for every severity.
pub print_severity_bounds : (x : Severity) → (name : List ℕ) × (print_severity x ≡ some name)
unfolding print_severity
print_severity_bounds trace = (_, refl)
print_severity_bounds debug = (_, refl)
print_severity_bounds info = (_, refl)
print_severity_bounds notice = (_, refl)
print_severity_bounds warning = (_, refl)
print_severity_bounds error = (_, refl)
print_severity_bounds critical = (_, refl)
print_severity_bounds alert = (_, refl)
print_severity_bounds fatal = (_, refl)

-- `write()` with its early return and its special case does what the plain loop does: a message that
-- is not below the minimum severity goes to every sink, in order, and any other to none.
pub write-log_to_all :
    (sev : Severity) (msg : List ℕ) (lg : Log)
    → write sev msg lg ≡ (if below sev lg.min_severity then [] else log_to_all lg.sinks sev msg)
unfolding write log_to_all
write-log_to_all sev msg lg = go (below sev lg.min_severity) lg.sinks
  where
    go :
        (b : Bool) (ss : List ℕ)
        → (if is_empty ss || b then [] else log_to_sinks ss sev msg)
          ≡ (if b then [] else log_to_all ss sev msg)
    go true [] = refl
    go false [] = refl
    go true (s ∷ ss) = refl
    go false (s ∷ []) = refl
    go false (s ∷ t ∷ ss) = refl

-- With any fuel of at least two rounds the macro ends. If the level is enabled at compile time and at
-- run time, the user's expression is evaluated once, and every sink gets its text between the level
-- and the location; otherwise the expression is not evaluated and no sink gets anything.
pub log_line_once :
    (n : ℕ) (level : Severity) (function filename : List ℕ) (lineno : ℕ) (text : List ℕ) (lg : Log)
    → log_line (suc (suc n)) level function filename lineno text lg ≡ (
        if level_compile_time_disabled level || below level lg.min_severity
        then ([], 0, true)
        else (log_to_all lg.sinks level (line level function filename lineno text), 1, true))
unfolding log_line log_loop one_round write_to open_logger print_severity
    level_compile_time_disabled disabled_loop disabled_bool
log_line_once n level function filename lineno text lg =
    elim (Bool-cases (level_compile_time_disabled level)) [
      | inl never ↦ simp never refl
      | inr enabled ↦ elim (Bool-cases (below level lg.min_severity)) [
        | inl quiet ↦ simp (enabled, quiet) refl
        | inr heard ↦
            simp (enabled, heard)
              (ap (λ (out : List Logged). (out, 1, true))
                (simp heard at
                  (write-log_to_all level (line level function filename lineno text) lg)))
      ]
    ]
