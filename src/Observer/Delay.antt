-- ===== src/Observer/Delay.antt =====
-- When the changes that observers ask for while they are told are made (lib/observer.cpp).
use ioa.Prelude.{
  ℕ, ◌≡◌, refl, sym, ap, ◌∙◌, Bool, true, false, ◌&&◌, ◌||◌, not, List, [], ◌∷◌, ◌++◌, ◌==◌, arith,
}
use ioa.FinSet.{contains, insert, erase, contains-insert, contains-erase}
use ioa.Observer.{
  Observable, Change, joins, leaves, change, change_all, observe_all, insert_all, erase_all, settle,
  notify_observers, add_observer, remove_observer,
}

contains-insert_all :
    (h : ℕ) (os xs : List ℕ) → contains h (insert_all os xs) ≡ (contains h os || contains h xs)
unfolding insert_all contains
contains-insert_all h [] xs = refl
contains-insert_all h (o ∷ os) xs =
    ground (arith, contains-insert_all h os (insert o xs), contains-insert h o xs)

contains-erase_all :
    (h : ℕ) (os xs : List ℕ) → contains h (erase_all os xs) ≡ (not (contains h os) && contains h xs)
unfolding erase_all contains
contains-erase_all h [] xs = refl
contains-erase_all h (o ∷ os) xs =
    ground (arith, contains-erase_all h os (erase o xs), contains-erase h o xs)

-- Whether an observer is there at the end.
abbrev pub will_observe : ℕ → Observable → Bool
will_observe h s = not (contains h s.removes) && (contains h s.adds || contains h s.observers)

-- What a change does to whether `h` observes.
abbrev pub after_change : ℕ → Change → Bool → Bool
after_change h (joins o) b = h == o || b
after_change h (leaves o) b = not (h == o) && b

abbrev pub after_changes : ℕ → List Change → Bool → Bool
after_changes h [] b = b
after_changes h (c ∷ cs) b = after_changes h cs (after_change h c b)

-- All that the observers ask for, in the order in which they are told.
abbrev pub asked : (ℕ → List Change) → List ℕ → List Change
asked react [] = []
asked react (o ∷ os) = react o ++ asked react os

change-will_observe :
    (h : ℕ) (c : Change) (s : Observable)
    → s.notify ≡ true
    → (will_observe h (change c s) ≡ after_change h c (will_observe h s))
      × ((change c s).notify ≡ true)
unfolding change add_observer remove_observer
change-will_observe h (joins o) s e =
    ground (arith, contains-insert h o s.adds, contains-erase h o s.removes)
change-will_observe h (leaves o) s e =
    ground (arith, contains-insert h o s.removes, contains-erase h o s.adds)

change_all-will_observe :
    (h : ℕ) (cs : List Change) (s : Observable)
    → s.notify ≡ true
    → (will_observe h (change_all cs s) ≡ after_changes h cs (will_observe h s))
      × ((change_all cs s).notify ≡ true)
unfolding change_all
change_all-will_observe h [] s e = (refl, e)
change_all-will_observe h (c ∷ cs) s e =
    let (now, on) = change-will_observe h c s e in
    let (later, still) = change_all-will_observe h cs (change c s) on in
    (later ∙ ap (after_changes h cs) now, still)

after_changes-append :
    (h : ℕ) (cs ds : List Change) (b : Bool)
    → after_changes h (cs ++ ds) b ≡ after_changes h ds (after_changes h cs b)
after_changes-append h [] ds b = refl
after_changes-append h (c ∷ cs) ds b = after_changes-append h cs ds (after_change h c b)

observe_all-will_observe :
    (h : ℕ) (react : ℕ → List Change) (os : List ℕ) (s : Observable)
    → s.notify ≡ true
    → will_observe h (observe_all react os s) ≡ after_changes h (asked react os) (will_observe h s)
unfolding observe_all
observe_all-will_observe h react [] s e = refl
observe_all-will_observe h react (o ∷ os) s e =
    let (now, on) = change_all-will_observe h (react o) s e in
    let rest = observe_all-will_observe h react os (change_all (react o) s) on in
    rest
    ∙ ap (after_changes h (asked react os)) now
    ∙ sym (after_changes-append h (react o) (asked react os) (will_observe h s))

settle-contains : (h : ℕ) (s : Observable) → contains h (settle s).observers ≡ will_observe h s
unfolding settle
settle-contains h s =
    contains-erase_all h s.removes (insert_all s.adds s.observers)
    ∙ ap (λ b. not (contains h s.removes) && b) (contains-insert_all h s.adds s.observers)

-- After a notification an observable has the observers that the changes asked for under it, in the
-- order asked, give when they are applied to the observers there were, less those left in m_remove
-- and with those left in m_add by earlier notifications.
pub notify_observers-contains :
    (h : ℕ) (react : ℕ → List Change) (s : Observable)
    → contains h (notify_observers react s).observers
      ≡ after_changes h (asked react s.observers) (will_observe h s)
unfolding notify_observers
notify_observers-contains h react s =
    settle-contains h (observe_all react s.observers (record s { notify = true }))
    ∙ observe_all-will_observe h react s.observers (record s { notify = true }) refl

nothing_asked : (h : ℕ) (b : Bool) (os : List ℕ) → after_changes h (asked (λ o. []) os) b ≡ b
nothing_asked h b [] = refl
nothing_asked h b (o ∷ os) = nothing_asked h b os

-- In an observable that is not notifying, an observer that is removed is back after the next
-- notification, though nobody asks for a change under it, if an earlier one left it in m_add and
-- not in m_remove.
pub notify_observers-stale :
    (h : ℕ) (s : Observable)
    → s.notify ≡ false
    → contains h s.adds ≡ true
    → contains h s.removes ≡ false
    → contains h (notify_observers (λ o. []) (remove_observer h s)).observers ≡ true
unfolding remove_observer
notify_observers-stale h s off added kept =
    notify_observers-contains h (λ o. []) (remove_observer h s)
    ∙ nothing_asked h (will_observe h (remove_observer h s)) (remove_observer h s).observers
    ∙ rw (off) (rw (added, kept) refl)
