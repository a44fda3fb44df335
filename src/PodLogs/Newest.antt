-- ===== src/PodLogs/Newest.antt =====
-- Which pod's log is read: jobPod and readJobLogs of internal/controller/odooaddon_controller.go.
use odoo_k8_operator.Base.{
  String, ◌⧺◌, Bool, not, if◌then◌else◌, true, false, ltb, leb, List, [], ◌∷◌, ◌++◌, some, ◌≡◌,
  refl, ap, subst, arith, Bool-cases, inl, inr, all,
}
use odoo_k8_operator.Kube.{ApiError, Reply, got, refused, Pod}
use odoo_k8_operator.Kube.Batch.{Job}
use odoo_k8_operator.Errors.{text, api, Result, err}
use odoo_k8_operator.PodLogs.{LogReads, newest_of, newest_pod, job_pod, log_of, read_job_logs}

-- The first one of the newest pods.
pub record IsNewest (p : Pod) (pods : List Pod) : Type 0 where
  pub before : List Pod
  pub after : List Pod
  pub split : pods ≡ before ++ (p ∷ after)
  pub all_older : all (λ q. ltb q.created p.created) before ≡ true
  pub no_newer : all (λ q. leb q.created p.created) after ≡ true

newest_of-newer : (best : Pod) (ps : List Pod) → leb best.created (newest_of best ps).created ≡ true
unfolding newest_of
newest_of-newer best [] = ground arith
newest_of-newer best (p ∷ ps) = elim (Bool-cases (ltb best.created p.created)) [
  | inl h ↦ let rest = newest_of-newer p ps in ground arith
  | inr h ↦ let rest = newest_of-newer best ps in ground arith
]

-- A pod that is older than the newest one may come first.
prepend-IsNewest :
    (best : Pod) (ps : List Pod) (r : Pod)
    → ltb best.created r.created ≡ true
    → IsNewest r ps
    → IsNewest r (best ∷ ps)
prepend-IsNewest best ps r lt n = record {
  before = best ∷ n.before;
  after = n.after;
  split = ap (λ l. best ∷ l) n.split;
  all_older = ground arith;
  no_newer = n.no_newer;
}

-- A pod that is not newer than the first changes nothing.
insert-IsNewest :
    (best p : Pod) (ps : List Pod) (r : Pod)
    → leb p.created best.created ≡ true
    → (before after : List Pod) → (best ∷ ps ≡ before ++ (r ∷ after))
    → all (λ q. ltb q.created r.created) before ≡ true
    → all (λ q. leb q.created r.created) after ≡ true
    → IsNewest r (best ∷ p ∷ ps)
insert-IsNewest best p ps r le [] after split all_older no_newer = record {
  before = [];
  after = p ∷ after;
  split = cc;
  all_older = refl;
  no_newer = ground arith;
}
insert-IsNewest best p ps r le (b ∷ before) after split all_older no_newer = record {
  before = best ∷ p ∷ before;
  after = after;
  split = cc;
  all_older = ground arith;
  no_newer = no_newer;
}

newest_of-IsNewest : (best : Pod) (ps : List Pod) → IsNewest (newest_of best ps) (best ∷ ps)
unfolding newest_of
newest_of-IsNewest best [] = record {
  before = [];
  after = [];
  split = refl;
  all_older = refl;
  no_newer = refl;
}
newest_of-IsNewest best (p ∷ ps) = elim (Bool-cases (ltb best.created p.created)) [
  | inl h ↦ rw h (
      prepend-IsNewest best (p ∷ ps) (newest_of p ps)
        (let rest = newest_of-newer p ps in ground arith) (newest_of-IsNewest p ps))
  | inr h ↦ rw h (
      let n = newest_of-IsNewest best ps in
      insert-IsNewest best p ps (newest_of best ps) (ground arith) n.before n.after n.split
        n.all_older n.no_newer)
]

pub newest_pod-IsNewest : (pods : List Pod) (p : Pod) → newest_pod pods ≡ some p → IsNewest p pods
unfolding newest_pod newest_of
newest_pod-IsNewest [] p h = absurd (ground arith)
newest_pod-IsNewest (q ∷ qs) p h =
    subst (λ r. IsNewest r (q ∷ qs)) (ground arith) (newest_of-IsNewest q qs)

-- What readJobLogs comes to: why there is no log, or the log of the newest pod.
pub data Read (r : LogReads) (job : Job) : Result String → Type 0 where
  no_clientset :
      r.clientset ≡ false → Read r job (err (text "no clientset configured to read job logs"))
  no_list : (e : ApiError) → r.pods ≡ refused e → Read r job (err (api e))
  no_pod : r.pods ≡ got [] → Read r job (err (text ("no pod found for job " ⧺ job.meta.name)))
  of_pod :
      (pods : List Pod) (p : Pod)
      → r.clientset ≡ true
      → r.pods ≡ got pods
      → IsNewest p pods
      → Read r job (r.stream p.name "")

reply-Read :
    (r : LogReads) (job : Job) (reply : Reply (List Pod))
    → r.clientset ≡ true
    → r.pods ≡ reply
    → Read r job (log_of r (job_pod job reply))
unfolding log_of job_pod newest_pod
reply-Read r job (refused e) set same = no_list e same
reply-Read r job (got []) set same = no_pod same
reply-Read r job (got (p ∷ ps)) set same =
    of_pod (p ∷ ps) _ set same (newest_pod-IsNewest (p ∷ ps) (newest_of p (p ∷ ps)) refl)

clientset-Read :
    (r : LogReads) (job : Job) (set : Bool)
    → r.clientset ≡ set
    → Read r job (
        if not set
        then err (text "no clientset configured to read job logs")
        else log_of r (job_pod job r.pods))
clientset-Read r job true same = reply-Read r job r.pods same refl
clientset-Read r job false same = no_clientset same

pub read_job_logs-Read : (r : LogReads) (job : Job) → Read r job (read_job_logs r job)
unfolding read_job_logs
read_job_logs-Read r job = clientset-Read r job r.clientset refl
