-- ===== src/Observer.antt =====
-- lib/observer.cpp: an observable and the observers that it tells of a change. Observers are numbers;
-- what an observer does when it is told is its own code, given as the changes it asks for.
pub mod Delay
use ioa.Prelude.{ℕ, Bool, true, false, List, [], ◌∷◌, if◌then◌else◌}
use ioa.FinSet
use ioa.FinSet.{contains, insert, erase}

pub record Observable : Type 0 where
  pub observers : List ℕ
  pub adds : List ℕ
  pub removes : List ℕ
  pub notify : Bool

unfoldable pub init : Observable
init = record { observers = []; adds = []; removes = []; notify = false }

unfoldable pub add_observer : ℕ → Observable → Observable
unfolding insert erase
add_observer o s =
    if s.notify
    then record s { adds = insert o s.adds; removes = erase o s.removes }
    else record s { observers = insert o s.observers }

unfoldable pub remove_observer : ℕ → Observable → Observable
unfolding insert erase
remove_observer o s =
    if s.notify
    then record s { removes = insert o s.removes; adds = erase o s.adds }
    else record s { observers = erase o s.observers }

-- The calls that an observer may make of the observable: those of observer::add_observable and
-- observer::remove_observable, where the observer's own set, which is not modelled, lets them through.
pub data Change : Type 0 where
  joins leaves : (observer : ℕ) → Change

unfoldable pub change : Change → Observable → Observable
unfolding add_observer remove_observer
change (joins o) s = add_observer o s
change (leaves o) s = remove_observer o s

unfoldable pub change_all : List Change → Observable → Observable
unfolding change
change_all [] s = s
change_all (c ∷ cs) s = change_all cs (change c s)

-- The loop of `notify_observers` over the observers that there were at its start. The set does not
-- change under the loop, since m_notify sends all changes to the other two.
unfoldable pub observe_all : (ℕ → List Change) → List ℕ → Observable → Observable
unfolding change_all
observe_all react [] s = s
observe_all react (o ∷ os) s = observe_all react os (change_all (react o) s)

unfoldable pub insert_all : List ℕ → List ℕ → List ℕ
unfolding insert
insert_all [] xs = xs
insert_all (o ∷ os) xs = insert_all os (insert o xs)

unfoldable pub erase_all : List ℕ → List ℕ → List ℕ
unfolding erase
erase_all [] xs = xs
erase_all (o ∷ os) xs = erase_all os (erase o xs)

-- The end of `notify_observers`. It leaves m_add and m_remove as they are.
unfoldable pub settle : Observable → Observable
unfolding insert_all erase_all
settle s = record s {
  notify = false;
  observers = erase_all s.removes (insert_all s.adds s.observers);
}

unfoldable pub notify_observers : (ℕ → List Change) → Observable → Observable
unfolding observe_all settle
notify_observers react s = settle (observe_all react s.observers (record s { notify = true }))
