-- ===== src/AutomatonManager/Handles.antt =====
-- When a manager (include/ioa/automaton_manager.hpp) has a handle.
use ioa.Prelude.{◌≡◌, refl, Bool, true, false, List, arith, is_some}
use ioa.Outcome.{done}
use ioa.AutomatonManager.{
  AutomatonManager, State, start, is_created, init, Call, Happening, happen, destroy, created,
  destroyed, Reaches, here, next,
}

abbrev pub has_automaton : State → Bool
has_automaton is_created = true
has_automaton _ = false

abbrev pub is_open : State → Bool
is_open start = true
is_open is_created = true
is_open _ = false

-- A handle is known in the state created only, and the object is deleted in the two final states.
pub record IsKept (m : AutomatonManager) : Type 0 where
  pub known : is_some m.handle ≡ has_automaton m.state
  pub kept : m.alive ≡ is_open m.state

happen-IsKept :
    (h : Happening) (m m' : AutomatonManager) (calls : List Call)
    → IsKept m
    → m.alive ≡ true
    → happen h m ≡ done (m', calls)
    → IsKept m'
unfolding happen destroy created destroyed
happen-IsKept h m m' calls k live e = let a = k.known in let b = k.kept in ground arith

-- However a manager is used from its construction on, it has a handle exactly in the state created,
-- and is alive exactly in the states start and created.
pub init-IsKept : {m : AutomatonManager} → Reaches init.0 m → IsKept m
unfolding init
init-IsKept here = record { known = refl; kept = refl }
init-IsKept {m} (next {b} h calls r live e) = happen-IsKept h b m calls (init-IsKept r) live e
