-- ===== src/Kube/Meta/Plain.antt =====
-- A plain list of conditions that has the documented behaviour, so that it can be had.
use odoo_k8_operator.Base.{
  String, Bool, true, false, Option, none, some, List, [], ◌∷◌, ◌≡◌, ◌==◌, if◌then◌else◌, refl,
  arith, eq_iff, eq_refl, Bool-cases, inl, inr,
}
use odoo_k8_operator.Kube.{Condition, CondStatus, cond_true, cond_false, cond_unknown, Time}
use odoo_k8_operator.Kube.Meta.{ConditionSet, SameFacts, IsLawful}

same_status : CondStatus → CondStatus → Bool
same_status cond_true cond_true = true
same_status cond_false cond_false = true
same_status cond_unknown cond_unknown = true
same_status _ _ = false

update : Time → Condition → Condition → Condition
unfolding same_status
update now old new = record new {
  last_transition = if same_status old.status new.status then old.last_transition else now;
}

set : Time → List Condition → Condition → List Condition
set now [] c = record c { last_transition = now } ∷ []
set now (d ∷ cs) c = if d.type == c.type then update now d c ∷ cs else d ∷ set now cs c

find : List Condition → String → Option Condition
find [] t = none
find (d ∷ cs) t = if d.type == t then some d else find cs t

remove : List Condition → String → List Condition
remove [] t = []
remove (d ∷ cs) t = let rest = remove cs t in if d.type == t then rest else d ∷ rest

abbrev pub plain : Time → ConditionSet
unfolding update set find remove
plain now = record { set = set now; find = find; remove = remove }

find-set_self :
    (now : Time) (cs : List Condition) (c : Condition)
    → (d : Condition) × (find (set now cs c) c.type ≡ some d) × SameFacts d c
unfolding set find update
find-set_self now [] c =
    (record c { last_transition = now }, ground (arith, eq_refl c.type), ground arith)
find-set_self now (e ∷ cs) c = elim (Bool-cases (e.type == c.type)) [
  | inl p ↦ (update now e c, ground (arith, eq_refl c.type), ground arith)
  | inr p ↦ let (d, f, s) = find-set_self now cs c in (d, ground arith, s)
]

find-set_ne :
    (now : Time) (cs : List Condition) (c : Condition) (t : String)
    → (c.type == t) ≡ false
    → find (set now cs c) t ≡ find cs t
unfolding set find update
find-set_ne now [] c t h = ground arith
find-set_ne now (e ∷ cs) c t h =
    ground (arith, find-set_ne now cs c t h, eq_iff e.type c.type, eq_iff e.type t, eq_iff c.type t)

same_status_refl : (s : CondStatus) → same_status s s ≡ true
unfolding same_status
same_status_refl cond_true = refl
same_status_refl cond_false = refl
same_status_refl cond_unknown = refl

update_same : (now : Time) (c d : Condition) → SameFacts d c → update now d c ≡ d
unfolding update
update_same now c d h = ground (arith, same_status_refl d.status)

set_same :
    (now : Time) (cs : List Condition) (c d : Condition)
    → find cs c.type ≡ some d
    → SameFacts d c
    → set now cs c ≡ cs
unfolding set find
set_same now [] c d h s = ground arith
set_same now (e ∷ cs) c d h s = ground (arith, set_same now cs c d, update_same now c e)

find-remove_self : (cs : List Condition) (t : String) → find (remove cs t) t ≡ none
unfolding find remove
find-remove_self [] t = refl
find-remove_self (e ∷ cs) t = ground (arith, find-remove_self cs t)

find-remove_ne :
    (cs : List Condition) (t u : String) → (t == u) ≡ false → find (remove cs t) u ≡ find cs u
unfolding find remove
find-remove_ne [] t u h = refl
find-remove_ne (e ∷ cs) t u h =
    ground (arith, find-remove_ne cs t u h, eq_iff e.type t, eq_iff e.type u, eq_iff t u)

pub plain-IsLawful : (now : Time) → IsLawful (plain now)
unfolding plain
plain-IsLawful now = record {
  find-set_self = find-set_self now;
  find-set_ne = find-set_ne now;
  set_same = set_same now;
  find-remove_self = find-remove_self;
  find-remove_ne = find-remove_ne;
}
