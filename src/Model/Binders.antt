-- ===== src/Model/Binders.antt =====
-- The whole of `bind`: which calls are refused, and what each leaves behind.
use ioa.Prelude.{
  ℕ, ◌≡◌, refl, true, false, none, some, arith, Bool-cases, Option-cases, inl, inr, Option, subst,
}
use ioa.FinSet
use ioa.Outcome.{done}
use ioa.SequentialSet.{has}
use ioa.Event.{Action, BoundResult, bound_to, bind_key_exists}
use ioa.Executor.{set_parameter}
use ioa.AutomatonRecord.{AutomatonRecord}
use ioa.AutomatonRecord
use ioa.Model.{Model, Status, success, failure, tell, record_of}
use ioa.Model.Invariant.{keys, Inv}
use ioa.Model.Binding.{Bound, refusal-Passed, attach_total, Inv-framed}
use ioa.Model.Bind.{refusal, bind, refuse}
use ioa.Model.Reasons.{Reason, IsToldWhy, refusal-IsToldWhy}

-- The reasons for which a call of `bind` is refused, each with the result that is reported, if any:
-- no such binder, a bind key that the binder has in use, or a reason against the two actions, the
-- parameters filled in.
pub data Refused (m : Model) (binder : ℕ) (output input : Action) (key : ℕ)
    : Option BoundResult → Type 0 where
  no_binder : has m.aids binder ≡ false → Refused m binder output input key none
  key_used : keys m binder key ≡ 1 → Refused m binder output input key (some bind_key_exists)
  checked :
      {r : BoundResult}
      → Reason m (set_parameter output input.aid) (set_parameter input output.aid) binder r
      → Refused m binder output input key (some r)

-- The model with the report of a refusal.
abbrev pub report : Model → (binder key : ℕ) → Option BoundResult → Model
report m binder key none = m
report m binder key (some r) = tell m (bound_to binder r key)

pub data Binds (rank : ℕ → ℕ) (m : Model) (binder : ℕ) (output input : Action) (key : ℕ)
    (m' : Model) : Status → Type 0 where
  refused :
      {r : Option BoundResult}
      → Refused m binder output input key r
      → m' ≡ report m binder key r
      → Inv rank m'
      → Binds rank m binder output input key m' failure
  binds :
      ((r : Option BoundResult) → ¬ Refused m binder output input key r)
      → Bound rank m (set_parameter output input.aid) (set_parameter input output.aid) binder key m'
      → Binds rank m binder output input key m' success

module _ (rank : ℕ → ℕ) (m : Model) (v : Inv rank m) (binder : ℕ) (output input : Action)
    (key : ℕ) where
  told_Inv :
      (m' : Model)
      → m'.aids ≡ m.aids
      → m'.instances ≡ m.instances
      → m'.records ≡ m.records
      → m'.bindings ≡ m.bindings
      → Inv rank m'
  told_Inv m' ea ei er eb = Inv-framed rank m m' (λ a. rw er refl) ea ei (rw (er, eb) v.linked) v

  abbrev Result : Type 0
  Result =
      (status : Status) × (m' : Model) × (bind m binder output input key ≡ done (status, m'))
      × Binds rank m binder output input key m' status

  refuse_Result :
      (r : BoundResult)
      → bind m binder output input key ≡ refuse m binder r key
      → Refused m binder output input key (some r)
      → Result
  refuse_Result r e why =
      let m' = tell m (bound_to binder r key) in
      (failure, m', e, refused why refl (told_Inv m' refl refl refl refl))

  -- With a binder that is there and the key free.
  bind_free :
      (r : AutomatonRecord)
      → has m.aids binder ≡ true
      → record_of binder m ≡ some r
      → FinSet.contains key r.bind_keys ≡ false
      → Result
  unfolding bind AutomatonRecord.bind_key_exists
  bind_free r alive there free =
      let output' = set_parameter output input.aid in
      let input' = set_parameter input output.aid in
      let why = refusal-IsToldWhy m output' input' binder in
      elim (Option-cases (refusal m output' input' binder)) [
        | inr (told, e) ↦
            refuse_Result told (rw (alive, there) (rw (free, e) refl))
              (checked (subst (IsToldWhy m output' input' binder) e why))
        | inl e ↦
            let checks = refusal-Passed m output' input' binder e in
            let (m', d, b) = attach_total rank m v output' input' binder key checks r there free in
            (
              success,
              m',
              rw (alive, there) (rw (free, e) (rw d refl)),
              binds (not_refused (subst (IsToldWhy m output' input' binder) e why)) b,
            )
      ]
    where
      not_refused :
          IsToldWhy m (set_parameter output input.aid) (set_parameter input output.aid) binder none
          → (told : Option BoundResult) → ¬ Refused m binder output input key told
      not_refused none_told _ (no_binder h) = ground arith
      not_refused none_told _ (key_used h) = ground arith
      not_refused none_told _ (checked {r} h) = none_told r h

  -- Under the invariant, binding returns, whatever the actions and the key. It is refused exactly if
  -- there is a reason: no such binder, a bind key that it has in use, an action whose automaton is
  -- not there or is of another class, an input that is bound already, one automaton for both, or an
  -- executor of the output with a record of the input's automaton. The refusal changes nothing but
  -- the log, which gets the result that stands for that reason, none with no binder. Any other call
  -- succeeds: there is exactly one binding more, made by the binder under the key, and the test by
  -- which `bind` refuses a second one finds a binding of the two actions, their parameters filled
  -- in, by the binder. The invariant holds again.
  pub bind_total : Result
  unfolding bind AutomatonRecord.bind_key_exists
  bind_total = elim (Option-cases (record_of binder m)) [
    | inl absent ↦
        let used = v.registry.used binder in
        (failure, m, ground arith, refused (no_binder (ground arith)) refl v)
    | inr (r, there) ↦
        let used = v.registry.used binder in
        let alive : has m.aids binder ≡ true = ground arith in
        elim (Bool-cases (FinSet.contains key r.bind_keys)) [
          | inl taken ↦
              refuse_Result bind_key_exists (rw (alive, there) (rw taken refl))
                (key_used (ground arith))
          | inr free ↦ bind_free r alive there free
        ]
  ]
