-- ===== src/Macros/Runner/Replay.antt =====
-- apps/xfs-server/src/macros: the checkpoints of the recorder in a run.
use atm_xfs_simulator.Common.{
  ℕ, ◌≡◌, refl, sym, ap, ◌∙◌, subst, ◌⊎◌, inl, inr, String, Bool, true, none, some, List, [], ◌∷◌,
  ◌++◌, Result, ok, err, if◌then◌else◌, if_cases, leb,
}
use atm_xfs_simulator.Macros.{
  MacroStep, MacroStepKind, MacroDevice, MacroParameter, checkpoint, cash, card,
}
use atm_xfs_simulator.Macros.Op.{and_then}
use atm_xfs_simulator.Macros.Recorder.{
  Recording, Recorder, new_recording, push_step, flush_digit_buffer, on_xfs_event, add_checkpoint,
  event_to_checkpoint, sort_steps, insert_step,
}
use atm_xfs_simulator.Macros.Recorder.Keeps.{
  Input, event, receive, record_all, record_all-keeps, flush-keeps,
}
use atm_xfs_simulator.Macros.Runner.{Environment}
use atm_xfs_simulator.Macros.Runner.Steps.{World, lift, execute_step}
use atm_xfs_simulator.Macros.Runner.Run.{
  failed, Database, Ran, enabled_steps, try_step, after_step, run_steps,
}

-- A checkpoint of the recorder that the runner does not know.
abbrev IsUnknown : MacroStep → Type 0
IsUnknown s =
    (s.enabled ≡ true)
    × (s.kind ≡ checkpoint)
    × (((s.device ≡ cash) × (s.operation ≡ "Checkpoint(Taken)"))
        ⊎ ((s.device ≡ card) × (s.operation ≡ "Checkpoint(Retained)")))

abbrev HasUnknown : List MacroStep → Type 0
HasUnknown [] = ⊥
HasUnknown (s ∷ ss) = IsUnknown s ⊎ HasUnknown ss

HasUnknown-append : (ss ts : List MacroStep) → HasUnknown ss → HasUnknown (ss ++ ts)
HasUnknown-append [] ts h = absurd h
HasUnknown-append (s ∷ ss) ts (inl h) = inl h
HasUnknown-append (s ∷ ss) ts (inr h) = inr (HasUnknown-append ss ts h)

HasUnknown-last : (ss : List MacroStep) (s : MacroStep) → IsUnknown s → HasUnknown (ss ++ (s ∷ []))
HasUnknown-last [] s h = inl h
HasUnknown-last (t ∷ ss) s h = inr (HasUnknown-last ss s h)

enabled_steps-HasUnknown : (ss : List MacroStep) → HasUnknown ss → HasUnknown (enabled_steps ss)
enabled_steps-HasUnknown [] h = h
enabled_steps-HasUnknown (s ∷ ss) (inl (on, kind, h)) =
    subst (λ (b : Bool). HasUnknown (if b then s ∷ enabled_steps ss else enabled_steps ss)) (sym on)
      (inl (on, kind, h))
enabled_steps-HasUnknown (s ∷ ss) (inr h) =
    let ih = enabled_steps-HasUnknown ss h in
    if_cases HasUnknown s.enabled (s ∷ enabled_steps ss) (enabled_steps ss) (λ on. inr ih)
      (λ off. ih)

insert_step-HasUnknown :
    (s : MacroStep) (ss : List MacroStep)
    → IsUnknown s ⊎ HasUnknown ss
    → HasUnknown (insert_step s ss)
insert_step-HasUnknown s [] h = h
insert_step-HasUnknown s (t ∷ ts) h =
    if_cases HasUnknown (leb s.order t.order) (s ∷ t ∷ ts) (t ∷ insert_step s ts) (λ first. h)
      (λ later. elim h [
        | inl new ↦ inr (insert_step-HasUnknown s ts (inl new))
        | inr old ↦ elim old [
          | inl here ↦ inl here
          | inr below ↦ inr (insert_step-HasUnknown s ts (inr below))
        ]
      ])

sort_steps-HasUnknown : (ss : List MacroStep) → HasUnknown ss → HasUnknown (sort_steps ss)
unfolding sort_steps
sort_steps-HasUnknown [] h = h
sort_steps-HasUnknown (s ∷ ss) (inl h) = insert_step-HasUnknown s (sort_steps ss) (inl h)
sort_steps-HasUnknown (s ∷ ss) (inr h) =
    insert_step-HasUnknown s (sort_steps ss) (inr (sort_steps-HasUnknown ss h))

abbrev with_kind : MacroStep → MacroStepKind → MacroDevice → String → MacroStep
with_kind s kind device operation = record {
  id = s.id;
  order = s.order;
  kind = kind;
  device = device;
  operation = operation;
  parameters = s.parameters;
  enabled = s.enabled;
}

module _ {S : Type 0} (env : Environment S) (db : Database S) (run_id : String) where
  execute_step-unknown :
      (s : MacroStep) (w : World env)
      → IsUnknown s
      → (e : String) × (execute_step env s w ≡ (err e, w))
  unfolding execute_step
  execute_step-unknown s w (on, k, inl (d, o)) = (
    "unsupported step: Cash:CHECKPOINT:Checkpoint(Taken)",
    ap (λ (t : MacroStep). execute_step env t w) (λ i. with_kind s (k i) (d i) (o i)),
  )
  execute_step-unknown s w (on, k, inr (d, o)) = (
    "unsupported step: Card:CHECKPOINT:Checkpoint(Retained)",
    ap (λ (t : MacroStep). execute_step env t w) (λ i. with_kind s (k i) (d i) (o i)),
  )

  after_step-failed :
      (s : MacroStep) (tried : Result String String × World env)
      (again : World env → Ran (World env))
      → ((w : World env) → (again w).0.0 ≡ failed)
      → (after_step env db s tried again).0.0 ≡ failed
  after_step-failed s (ok message, w) again h = h w
  after_step-failed s (err e, w) again h = refl

  after_update :
      (s : MacroStep) (r : Result {0, 0} String Unit × World env)
      (again : World env → Ran (World env))
      → IsUnknown s
      → (after_step env db s (and_then r (λ u. execute_step env s)) again).0.0 ≡ failed
  after_update s (err e, w) again h = refl
  after_update s (ok u, w) again h =
      let (e, thrown) = execute_step-unknown s w h in
      ap (λ (t : Result String String × World env). (after_step env db s t again).0.0) thrown

  run_steps-HasUnknown :
      (ss : List MacroStep) (w : World env)
      → HasUnknown ss
      → (run_steps env db run_id ss w).0.0 ≡ failed
  unfolding run_steps
  run_steps-HasUnknown [] w h = absurd h
  run_steps-HasUnknown (s ∷ ss) w (inl h) =
      after_update s (lift env (db.update_current_step run_id s.order) w)
        (run_steps env db run_id ss) h
  run_steps-HasUnknown (s ∷ ss) w (inr h) =
      after_step-failed s (try_step env db run_id s w) (run_steps env db run_id ss)
        (λ w'. run_steps-HasUnknown ss w' h)

-- The events for which there is such a checkpoint.
abbrev pub IsUnplayable : String → Type 0
IsUnplayable code = (code ≡ "WFS_SRVE_CDM_ITEMSTAKEN") ⊎ (code ≡ "WFS_SRVE_IDC_MEDIARETAINED")

abbrev pub saved_steps : (ℕ → String) → Recorder → List MacroStep
saved_steps uuid none = []
saved_steps uuid (some r) = sort_steps (flush_digit_buffer uuid r).steps

record_all-append :
    (uuid : ℕ → String) (r : Recorder) (is js : List Input)
    → record_all uuid r (is ++ js) ≡ record_all uuid (record_all uuid r is) js
record_all-append uuid r [] js = refl
record_all-append uuid r (i ∷ is) js = record_all-append uuid (receive uuid r i) is js

module _ (uuid : ℕ → String) where
  abbrev Kept : Recording → Type 0
  Kept r = HasUnknown r.steps

  add_checkpoint-unknown :
      (code : String) (r : Recording)
      → IsUnplayable code
      → Kept (add_checkpoint uuid (event_to_checkpoint code) r)
  add_checkpoint-unknown code r (inl e) =
      subst (λ (c : String). Kept (add_checkpoint uuid (event_to_checkpoint c) r)) (sym e)
        (HasUnknown-last (flush_digit_buffer uuid r).steps _ (refl, refl, inl (refl, refl)))
  add_checkpoint-unknown code r (inr e) =
      subst (λ (c : String). Kept (add_checkpoint uuid (event_to_checkpoint c) r)) (sym e)
        (HasUnknown-last (flush_digit_buffer uuid r).steps _ (refl, refl, inr (refl, refl)))

  push_step-Kept :
      (kind : MacroStepKind) (device : MacroDevice) (operation : String) (ps : List MacroParameter)
      (r : Recording)
      → Kept r
      → Kept (push_step uuid kind device operation ps r)
  push_step-Kept kind device operation ps r h = HasUnknown-append r.steps _ h

  saved_steps-HasUnknown :
      (code macro_id : String) (before after : List Input)
      → IsUnplayable code
      → HasUnknown (
          saved_steps uuid
            (record_all uuid (some (new_recording macro_id)) (before ++ (event code ∷ after))))
  unfolding on_xfs_event
  saved_steps-HasUnknown code macro_id before after h =
      let trivial = λ (r : Recording). Unit {0} in
      let (r, e, u) =
        record_all-keeps uuid trivial (λ (ds : List ℕ) (r : Recording) t. tt)
          (λ (b : Bool) (r : Recording) t. tt)
          (λ (k : MacroStepKind) (d : MacroDevice) (o : String) (ps : List MacroParameter)
              (r : Recording) t.
            tt)
          before (new_recording macro_id) tt in
      let marked = add_checkpoint uuid (event_to_checkpoint code) r in
      let (r', e', kept) =
        record_all-keeps uuid Kept (λ (ds : List ℕ) (r : Recording) k. k)
          (λ (b : Bool) (r : Recording) k. k) push_step-Kept after marked
          (add_checkpoint-unknown code r h) in
      let flushed =
        flush-keeps uuid Kept (λ (ds : List ℕ) (r : Recording) k. k)
          (λ (b : Bool) (r : Recording) k. k) push_step-Kept r' kept in
      subst (λ (x : Recorder). HasUnknown (saved_steps uuid x))
        (sym (
          record_all-append uuid (some (new_recording macro_id)) before (event code ∷ after)
          ∙ ap (λ (x : Recorder). record_all uuid x (event code ∷ after)) e
          ∙ e'))
        (sort_steps-HasUnknown (flush_digit_buffer uuid r').steps flushed)

-- A recording during which the customer takes the notes, or the reader keeps the card, never plays back:
-- whatever else is recorded before and after, and whatever the ATM, the devices and the database do, a run
-- of the steps that are saved fails, since the runner has no case for the checkpoint of that event.
pub run_steps-unplayable :
    {S : Type 0} (env : Environment S) (db : Database S) (uuid : ℕ → String)
    (run_id macro_id code : String) (before after : List Input) (w : World env)
    → IsUnplayable code
    → (run_steps env db run_id
        (sort_steps (
          enabled_steps (
            saved_steps uuid
              (record_all uuid (some (new_recording macro_id)) (before ++ (event code ∷ after))))))
        w).0.0
      ≡ failed
run_steps-unplayable env db uuid run_id macro_id code before after w h =
    let ss =
      saved_steps uuid
        (record_all uuid (some (new_recording macro_id)) (before ++ (event code ∷ after))) in
    run_steps-HasUnknown env db run_id (sort_steps (enabled_steps ss)) w (
      sort_steps-HasUnknown (enabled_steps ss)
        (enabled_steps-HasUnknown ss (saved_steps-HasUnknown uuid code macro_id before after h)))
