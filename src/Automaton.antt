-- ===== src/Automaton.antt =====
-- lib/automaton.cpp: what each automaton keeps of the automata and the bindings that it asked for.
-- A helper is an automaton manager or a binding manager, named by its address.
pub mod Protocol
use ioa.Prelude.{ℕ, Bool, true, false, List, [], ◌∷◌, ◌++◌, if◌then◌else◌, map}
use ioa.Outcome.{Outcome, fault, done, ◌>>=◌}
use ioa.Event.{
  Created, create_key_exists, instance_exists, automaton_created, BoundResult, bind_key_exists,
  bound, UnboundResult, bind_key_dne, unbound, Destroyed, create_key_dne, automaton_destroyed,
  no_aid,
}
use ioa.Requests.{
  Requests, none_yet, add, withdraw, can_send, send_first, can_undo, undo_first, failed, succeeded,
  finished,
}

pub record Automaton : Type 0 where
  pub creates : Requests
  pub binds : Requests

-- The calls that an automaton makes: of its helpers, and of ioa::schedule.
pub data Call : Type 0 where
  sys_create sys_bind sys_unbind sys_destroy : Call
  helper_created : (helper : ℕ) → Created → (aid : ℕ) → Call
  helper_destroyed : (helper : ℕ) → Call
  helper_bound : (helper : ℕ) → BoundResult → Call
  helper_unbound : (helper : ℕ) → Call

unfoldable pub init : Automaton
init = record { creates = none_yet; binds = none_yet }

abbrev when : Bool → Call → List Call
when b c = if b then c ∷ [] else []

unfoldable pub schedule : Automaton → List Call
schedule a =
    when (can_send a.creates) sys_create
    ++ (when (can_send a.binds) sys_bind
        ++ (when (can_undo a.binds) sys_unbind ++ when (can_undo a.creates) sys_destroy))

-- A method ends with a call of `schedule`, after the calls in `cs`.
abbrev scheduled : Automaton → List Call → Automaton × List Call
scheduled a cs = (a, cs ++ schedule a)

unfoldable pub create : Automaton → (helper : ℕ) → Outcome (Automaton × List Call)
create a h = do r ← add a.creates h; done (scheduled (record a { creates = r }) [])

unfoldable pub bind : Automaton → (helper : ℕ) → Outcome (Automaton × List Call)
bind a h = do r ← add a.binds h; done (scheduled (record a { binds = r }) [])

unfoldable pub unbind : Automaton → (helper : ℕ) → Outcome (Automaton × List Call)
unbind a h = do
  (r, told) ← withdraw a.binds h
  done (scheduled (record a { binds = r }) (when told (helper_unbound h)))

unfoldable pub destroy : Automaton → (helper : ℕ) → Outcome (Automaton × List Call)
destroy a h = do
  (r, told) ← withdraw a.creates h
  done (scheduled (record a { creates = r }) (when told (helper_destroyed h)))

unfoldable pub sys_create_precondition : Automaton → Bool
sys_create_precondition a = can_send a.creates

unfoldable pub sys_create_effect : Automaton → Outcome (ℕ × Automaton)
sys_create_effect a = do (h, r) ← send_first a.creates; done (h, record a { creates = r })

unfoldable pub sys_bind_precondition : Automaton → Bool
sys_bind_precondition a = can_send a.binds

unfoldable pub sys_bind_effect : Automaton → Outcome (ℕ × Automaton)
sys_bind_effect a = do (h, r) ← send_first a.binds; done (h, record a { binds = r })

unfoldable pub sys_unbind_precondition : Automaton → Bool
sys_unbind_precondition a = can_undo a.binds

unfoldable pub sys_unbind_effect : Automaton → Outcome (ℕ × Automaton)
sys_unbind_effect a = do (h, r) ← undo_first a.binds; done (h, record a { binds = r })

unfoldable pub sys_destroy_precondition : Automaton → Bool
sys_destroy_precondition a = can_undo a.creates

unfoldable pub sys_destroy_effect : Automaton → Outcome (ℕ × Automaton)
sys_destroy_effect a = do (h, r) ← undo_first a.creates; done (h, record a { creates = r })

unfoldable pub sys_created_effect :
    Automaton → Created → (key aid : ℕ) → Outcome (Automaton × List Call)
sys_created_effect a create_key_exists h aid = fault
sys_created_effect a instance_exists h aid = do
  r ← failed a.creates h
  done (record a { creates = r }, helper_created h instance_exists no_aid ∷ [])
sys_created_effect a automaton_created h aid = do
  r ← succeeded a.creates h
  done (record a { creates = r }, helper_created h automaton_created aid ∷ [])

-- The five results between the first and the last are treated alike.
unfoldable pub sys_bound_effect :
    Automaton → BoundResult → (key : ℕ) → Outcome (Automaton × List Call)
sys_bound_effect a bind_key_exists h = fault
sys_bound_effect a bound h = do
  r ← succeeded a.binds h
  done (record a { binds = r }, helper_bound h bound ∷ [])
sys_bound_effect a result h = do
  r ← failed a.binds h
  done (record a { binds = r }, helper_bound h result ∷ [])

unfoldable pub sys_unbound_effect :
    Automaton → UnboundResult → (key : ℕ) → Outcome (Automaton × List Call)
sys_unbound_effect a bind_key_dne h = fault
sys_unbound_effect a unbound h = do
  r ← finished a.binds h
  done (record a { binds = r }, helper_unbound h ∷ [])

unfoldable pub sys_destroyed_effect :
    Automaton → Destroyed → (key : ℕ) → Outcome (Automaton × List Call)
sys_destroyed_effect a create_key_dne h = fault
sys_destroyed_effect a automaton_destroyed h = do
  r ← finished a.creates h
  done (record a { creates = r }, helper_destroyed h ∷ [])

-- The destructor tells every helper, set by set.
abbrev pub tell_all : (ℕ → Call) → Requests → List Call
tell_all f r =
    map f r.send ++ (map f r.recv ++ (map f r.ready ++ (map f r.undo_send ++ map f r.undo_recv)))

unfoldable pub destruct : Automaton → List Call
destruct a = tell_all helper_destroyed a.creates ++ tell_all helper_unbound a.binds
