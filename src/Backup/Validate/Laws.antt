-- ===== src/Backup/Validate/Laws.antt =====
-- What a valid backup spec is.
use odoo_k8_operator.Base.{
  ℤ, pos, ◌<ℤ◌, String, true, false, ◌||◌, not, ◌==◌, if◌then◌else◌, Option, none, some, ◌≡◌, ◌⊎◌,
  refl, sym, ◌∙◌, ap, arith,
}
use odoo_k8_operator.Errors.{Error}
use odoo_k8_operator.Api.{OdooBackup, BackupDestination, BackupPvcDestination, BackupS3Destination}
use odoo_k8_operator.Backup.Validate.{
  valid_bucket, backup_validate_path, check_pvc, check_s3, check_s3_rest, check_destination,
  backup_validate_destination, fields, ParsedQuantity, quantity, not_quantity, or_else,
  check_retention, check_quantity, check_timeout, check_schedule, check_instance, check_database,
  backup_validate_spec,
}
use odoo_k8_operator.Backup.Validate.Paths.{IsInside, backup_validate_path-IsInside}

-- What a valid destination is: one of the two kinds, and its path stays inside.
pub data IsDestination (d : BackupDestination) : Type 0 where
  on_pvc :
      (pvc : BackupPvcDestination)
      → d.pvc ≡ some pvc
      → d.s3 ≡ none
      → (pvc.claim_name == "") ≡ false
      → (pvc.sub_path ≡ "") ⊎ IsInside pvc.sub_path
      → IsDestination d
  on_s3 :
      (s3 : BackupS3Destination)
      → d.pvc ≡ none
      → d.s3 ≡ some s3
      → valid_bucket s3.bucket ≡ true
      → (s3.credentials_secret == "") ≡ false
      → (s3.prefix ≡ "") ⊎ IsInside s3.prefix
      → IsDestination d

pub record IsValid (parse : String → ParsedQuantity) (bk : OdooBackup) : Type 0 where
  pub instance_named : (bk.spec.instance_ref.name == "") ≡ false
  pub same_namespace :
      ((bk.spec.instance_ref.namespace == "")
        || (bk.spec.instance_ref.namespace == bk.meta.namespace))
      ≡ true
  pub destination : IsDestination bk.spec.destination
  pub retention : (r : ℤ) → bk.spec.retention ≡ some r → (r <ℤ pos 1) ≡ false
  pub scratch : (bk.spec.scratch_size == "") ≡ false → parse bk.spec.scratch_size ≡ quantity true
  pub timeout :
      (t : ℤ)
      → bk.spec.timeout_seconds ≡ some t
      → ((t <ℤ pos 60) ≡ false) × ((pos 86400 <ℤ t) ≡ false)
  pub schedule : (bk.spec.schedule == "") ≡ false → fields bk.spec.schedule ≡ 5

s3_rest-none :
    (s3 : BackupS3Destination) (o : Option Error)
    → check_s3_rest s3 o ≡ none
    → (o ≡ none) × ((s3.credentials_secret == "") ≡ false)
unfolding check_s3_rest
s3_rest-none s3 none h = (refl, ground arith)
s3_rest-none s3 (some e) h = ground arith

check_s3-none :
    (s3 : BackupS3Destination)
    → check_s3 s3 ≡ none
    → (valid_bucket s3.bucket ≡ true)
      × (check_s3_rest s3 (backup_validate_path "destination.s3.prefix" s3.prefix) ≡ none)
unfolding check_s3
check_s3-none s3 h = (ground arith, ground arith)

check_pvc-none :
    (pvc : BackupPvcDestination)
    → check_pvc pvc ≡ none
    → ((pvc.claim_name == "") ≡ false)
      × (backup_validate_path "destination.pvc.subPath" pvc.sub_path ≡ none)
unfolding check_pvc
check_pvc-none pvc h = (ground arith, ground arith)

check-IsDestination :
    (d : BackupDestination) (p : Option BackupPvcDestination) (q : Option BackupS3Destination)
    → d.pvc ≡ p
    → d.s3 ≡ q
    → check_destination p q ≡ none
    → IsDestination d
unfolding check_destination
check-IsDestination d (some pvc) (some s3) hp hq h = ground arith
check-IsDestination d none none hp hq h = ground arith
check-IsDestination d (some pvc) none hp hq h =
    let (n, path) = check_pvc-none pvc h in
    on_pvc pvc hp hq n (backup_validate_path-IsInside "destination.pvc.subPath" pvc.sub_path path)
check-IsDestination d none (some s3) hp hq h =
    let (bucket, rest) = check_s3-none s3 h in
    let (path, secret) = s3_rest-none s3 _ rest in
    on_s3 s3 hp hq bucket secret
      (backup_validate_path-IsInside "destination.s3.prefix" s3.prefix path)

or_else-none : (a b : Option Error) → or_else a b ≡ none → (a ≡ none) × (b ≡ none)
unfolding or_else
or_else-none none b h = (refl, h)
or_else-none (some e) b h = ground arith

-- A chain of checks passes where every check does.
chain-none :
    (a b c d e f g : Option Error)
    → or_else a (or_else b (or_else c (or_else d (or_else e (or_else f g))))) ≡ none
    → (a ≡ none) × (b ≡ none) × (c ≡ none) × (d ≡ none) × (e ≡ none) × (f ≡ none) × (g ≡ none)
chain-none a b c d e f g h =
    let (ha, h1) = or_else-none a (or_else b (or_else c (or_else d (or_else e (or_else f g))))) h in
    let (hb, h2) = or_else-none b (or_else c (or_else d (or_else e (or_else f g)))) h1 in
    let (hc, h3) = or_else-none c (or_else d (or_else e (or_else f g))) h2 in
    let (hd, h4) = or_else-none d (or_else e (or_else f g)) h3 in
    let (he, h5) = or_else-none e (or_else f g) h4 in
    let (hf, hg) = or_else-none f g h5 in (ha, hb, hc, hd, he, hf, hg)

retention-none :
    (o : Option ℤ) (r : ℤ) → check_retention o ≡ none → o ≡ some r → (r <ℤ pos 1) ≡ false
unfolding check_retention
retention-none none r h e = ground arith
retention-none (some x) r h e = ground (arith, ap (λ (y : Option ℤ). check_retention y) (sym e) ∙ h)

timeout-none :
    (o : Option ℤ) (t : ℤ)
    → check_timeout o ≡ none
    → o ≡ some t
    → ((t <ℤ pos 60) ≡ false) × ((pos 86400 <ℤ t) ≡ false)
unfolding check_timeout
timeout-none o t h e =
    let k : check_timeout (some t) ≡ none = ap check_timeout (sym e) ∙ h in
    (ground (arith, k), ground (arith, k))

quantity-none :
    (size : String) (q : ParsedQuantity) → check_quantity size q ≡ none → q ≡ quantity true
unfolding check_quantity
quantity-none size (quantity true) h = refl
quantity-none size (quantity false) h = ground arith
quantity-none size (not_quantity e) h = ground arith

-- A backup spec that the reconciler accepts names an instance of its own namespace, has exactly one
-- destination, whose path, if any, is relative and steps up nowhere, keeps at least one backup, has a
-- positive scratch size, a timeout from a minute to a day, and a schedule of five fields, where
-- these are set.
pub backup_validate_spec-IsValid :
    (parse : String → ParsedQuantity) (bk : OdooBackup)
    → backup_validate_spec parse bk ≡ none
    → IsValid parse bk
unfolding backup_validate_spec check_instance check_schedule backup_validate_destination
backup_validate_spec-IsValid parse bk h =
    let size_check =
      if not (bk.spec.scratch_size == "")
      then check_quantity bk.spec.scratch_size (parse bk.spec.scratch_size)
      else none in
    let (inst, db, dest, keep, size, time, schedule) =
      chain-none (check_instance bk) (check_database bk.spec.database)
        (backup_validate_destination bk.spec.destination) (check_retention bk.spec.retention)
        size_check (check_timeout bk.spec.timeout_seconds) (check_schedule bk.spec.schedule) h in
    record {
      instance_named = ground (arith, inst);
      same_namespace = ground (arith, inst);
      destination = check-IsDestination bk.spec.destination _ _ refl refl dest;
      retention = λ r e. retention-none bk.spec.retention r keep e;
      scratch = λ set.
          quantity-none bk.spec.scratch_size (parse bk.spec.scratch_size) (ground (arith, size));
      timeout = λ t e. timeout-none bk.spec.timeout_seconds t time e;
      schedule = λ set. ground (arith, schedule);
    }
