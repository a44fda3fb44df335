-- ===== src/Events/Laws.antt =====
-- What is recorded of a change of status.
use odoo_k8_operator.Base.{
  ℕ, ◌≤◌, ◌+◌, subst, String, Bool, true, false, ◌&&◌, ◌||◌, not, ◌==◌, if◌then◌else◌, List, [],
  ◌∷◌, ◌++◌, ◌≡◌, inl, inr, refl, sym, ◌∙◌, arith, eq_iff, Memᴰ, len, slice, len-slice-le,
  len-append, length,
}
use mathlib.Core.List.Memᴰ
use odoo_k8_operator.Api.{OdooUpgradeStatus}
use odoo_k8_operator.Phases.{upgrade_phase_running, upgrade_phase_succeeded, upgrade_phase_failed}
use odoo_k8_operator.Events.{
  StatusEvent, Recorded, clip_event_note, emit_events, recorded, upgrade_events, when,
}

clip_event_note-le : (s : String) → len (clip_event_note s) ≤ 1024
unfolding clip_event_note
clip_event_note-le s = ground (arith, len-slice-le s 1021, len-append (slice s 0 1021) "...")

-- Every note that is recorded fits in the 1024 bytes that the API server takes.
pub emit_events-fit :
    (recorder : Bool) (namespace : String) (evs : List StatusEvent) (x : Recorded)
    → Memᴰ x (emit_events recorder namespace evs)
    → len x.note ≤ 1024
unfolding emit_events recorded
emit_events-fit false namespace evs x i = elim i [ ]
emit_events-fit true namespace [] x i = elim i [ ]
emit_events-fit true namespace (e ∷ evs) x i = elim (Memᴰ.cases_cons i) [
  | inl same ↦ subst (λ (y : Recorded). len y.note ≤ 1024) (sym same) (clip_event_note-le e.message)
  | inr below ↦ emit_events-fit true namespace evs x below
]

one : Bool → ℕ
one true = 1
one false = 0

-- One event for each test that holds.
length-when :
    (a b c : Bool) (x y z : StatusEvent)
    → length (when a x ++ (when b y ++ when c z)) ≡ one a + (one b + one c)
unfolding one
length-when true true true x y z = refl
length-when true true false x y z = refl
length-when true false true x y z = refl
length-when true false false x y z = refl
length-when false true true x y z = refl
length-when false true false x y z = refl
length-when false false true x y z = refl
length-when false false false x y z = refl

-- An upgrade's status write records one event if its phase changes to Running, Succeeded or Failed,
-- and none otherwise.
pub upgrade_events-count :
    (before after : OdooUpgradeStatus)
    → length (upgrade_events before after) ≡ (
        if (after.phase == before.phase)
          || not (
              (after.phase == upgrade_phase_running)
              || (after.phase == upgrade_phase_succeeded)
              || (after.phase == upgrade_phase_failed))
        then 0
        else 1)
unfolding upgrade_events one
upgrade_events-count before after =
    length-when
      ((after.phase == upgrade_phase_running) && not (before.phase == upgrade_phase_running))
      ((after.phase == upgrade_phase_succeeded) && not (before.phase == upgrade_phase_succeeded))
      ((after.phase == upgrade_phase_failed) && not (before.phase == upgrade_phase_failed)) _ _ _
    ∙ ground (
      arith,
      eq_iff after.phase before.phase,
      eq_iff after.phase upgrade_phase_running,
      eq_iff after.phase upgrade_phase_succeeded,
      eq_iff after.phase upgrade_phase_failed,
      eq_iff before.phase upgrade_phase_running,
      eq_iff before.phase upgrade_phase_succeeded,
      eq_iff before.phase upgrade_phase_failed,
      eq_iff upgrade_phase_running upgrade_phase_succeeded,
      eq_iff upgrade_phase_running upgrade_phase_failed,
      eq_iff upgrade_phase_succeeded upgrade_phase_failed,
    )
