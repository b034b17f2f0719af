-- ===== src/Executor/Run.antt =====
-- Running an output together with the inputs bound to it: operator() of the executors, and the
-- locks that an output takes.
use ioa.Prelude.{ℕ, Bool, true, false, ◌&&◌, ◌||◌, not, List, [], ◌∷◌, ◌++◌, ltb, if◌then◌else◌}
use ioa.Event.{Action, Parameter, is_set}
use ioa.Executor.{Binding, Output}

-- What an execution does, in order. All from `precondition` to
-- `notify` are calls of the user's code for an action; the
-- value that a valued output hands to its inputs is left out.
pub data Step : Type 0 where
  lock unlock : ℕ → Step
  set_current : ℕ → Step
  clear_current : Step
  precondition effect schedule notify : Action → Step
  -- assert (m_parameter != -1), of an action that has m_parameter.
  assert_parameter : Parameter → Step

-- The loop of `lock_in_order` and of `unlock_in_order`, from some value of `output_processed`.
unfoldable pub in_order : (ℕ → Step) → ℕ → Bool → List (ℕ × Binding) → List Step
in_order act output processed [] = []
in_order act output processed ((a, b) ∷ m) =
    let now = not processed && ltb output a in
    let rest = in_order act output (processed || now) m in
    if now then act output ∷ act a ∷ rest else act a ∷ rest

unfoldable pub lock_in_order : Output → List Step
unfolding in_order
lock_in_order o = in_order lock o.action.aid false o.records

unfoldable pub unlock_in_order : Output → List Step
unfolding in_order
unlock_in_order o = in_order unlock o.action.aid false o.records

-- operator() of an input executor.
unfoldable pub run_input : Action → List Step
run_input x =
    assert_parameter x.parameter ∷ set_current x.aid ∷ effect x ∷ schedule x ∷ clear_current ∷ []

unfoldable pub run_inputs : List (ℕ × Binding) → List Step
unfolding run_input
run_inputs [] = []
run_inputs ((a, b) ∷ m) = run_input b.input ++ run_inputs m

-- operator() of an output executor; `enabled` is what its precondition answers.
unfoldable pub run_output : Output → Bool → List Step
unfolding lock_in_order unlock_in_order run_inputs
run_output o enabled =
    let x = o.action in
    assert_parameter x.parameter ∷ lock_in_order o
    ++ (set_current x.aid
        ∷ precondition x
        ∷ (if enabled
            then effect x ∷ schedule x ∷ clear_current ∷ run_inputs o.records
            else clear_current ∷ []))
    ++ unlock_in_order o

-- operator() of an internal action's executor.
unfoldable pub run_internal : Action → Bool → List Step
run_internal x enabled =
    lock x.aid
    ∷ set_current x.aid
    ∷ precondition x
    ∷ ((if enabled then effect x ∷ schedule x ∷ [] else []) ++ clear_current ∷ unlock x.aid ∷ [])

-- operator() of a system input's executor.
unfoldable pub run_system_input : Action → List Step
run_system_input x =
    lock x.aid ∷ set_current x.aid ∷ effect x ∷ schedule x ∷ clear_current ∷ unlock x.aid ∷ []

-- `bound` and `unbound` of an executor: the user's notice of it runs under the automaton's lock.
unfoldable pub run_notice : Action → List Step
run_notice x =
    assert_parameter x.parameter
    ∷ lock x.aid
    ∷ set_current x.aid
    ∷ notify x
    ∷ clear_current
    ∷ unlock x.aid
    ∷ []

-- The assertions on m_parameter among the steps hold.
unfoldable pub all_set : List Step → Bool
unfolding is_set
all_set [] = true
all_set (assert_parameter p ∷ s) = is_set p && all_set s
all_set (_ ∷ s) = all_set s
