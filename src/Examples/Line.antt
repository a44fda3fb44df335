-- ===== src/Examples/Line.antt =====
-- The line of one instance with two upgrades, and with two backups.
use mathlib.Core.List.Memᴰ
use odoo_k8_operator.Base.{
  true, false, ◌≡◌, ◌≢◌, ◌⊎◌, inl, inr, refl, List, [], ◌∷◌, Memᴰ, arith, eq_iff,
}
use odoo_k8_operator.Api.{OdooUpgrade}
use odoo_k8_operator.Queue.{decide_start, phase_running, upgrade_queued}
use odoo_k8_operator.Queue.Decide.{Blocks, decide_start-Decides}
use odoo_k8_operator.Queue.Exclusion.{Waits, start_exclusive, front_may_start}
use odoo_k8_operator.Examples.Samples.{first_upgrade, second_upgrade}

abbrev both : List OdooUpgrade
both = second_upgrade ∷ first_upgrade ∷ []

second_in : Memᴰ second_upgrade both
second_in = Memᴰ.head refl

first_in : Memᴰ first_upgrade both
first_in = Memᴰ.tail (Memᴰ.head refl)

first-Waits : Waits "shop" first_upgrade
first-Waits = record { of_instance = refl; takes_part = refl; waiting = inl refl }

second-Waits : Waits "shop" second_upgrade
second-Waits = record { of_instance = refl; takes_part = refl; waiting = inr refl }

first_may_start : (decide_start first_upgrade both).may_start ≡ true
unfolding decide_start
first_may_start = refl

second_blocked : (decide_start second_upgrade both).may_start ≡ false
unfolding decide_start
second_blocked = refl

different_names : first_upgrade.meta.name ≢ second_upgrade.meta.name
different_names e = ground (arith, eq_iff "first" "second")

none_running :
    (o : OdooUpgrade)
    → Memᴰ o both
    → o.spec.instance_ref.name ≡ "shop"
    → o.status.phase ≢ phase_running
none_running o i n e = elim (Memᴰ.cases_cons i) [
  | inl h ↦ ground (arith, h, eq_iff "Pending" phase_running)
  | inr j ↦ elim (Memᴰ.cases_cons j) [
    | inl h ↦ ground (arith, h, eq_iff "" phase_running)
    | inr none_left ↦ elim none_left [ ]
  ]
]

start_exclusive_example : (decide_start second_upgrade both).may_start ≡ false
start_exclusive_example =
    start_exclusive "shop" first_upgrade second_upgrade both first_in second_in first-Waits
      second-Waits different_names first_may_start

front_may_start_example :
    (m : OdooUpgrade) × Memᴰ m both × Waits "shop" m × ((decide_start m both).may_start ≡ true)
front_may_start_example =
    front_may_start "shop" both second_upgrade second_in second-Waits none_running

decide_start-Decides_example :
    (((decide_start second_upgrade both).may_start ≡ true)
      × ((o : OdooUpgrade) → Memᴰ o both → ¬ (Blocks second_upgrade o)))
    ⊎ (((decide_start second_upgrade both).may_start ≡ false)
        × ((o : OdooUpgrade) × Memᴰ o both
            × (o.meta.name ≡ (decide_start second_upgrade both).blocked_by)
            × Blocks second_upgrade o))
decide_start-Decides_example = decide_start-Decides second_upgrade both
