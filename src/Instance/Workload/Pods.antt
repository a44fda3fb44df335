-- ===== src/Instance/Workload/Pods.antt =====
-- What the pods of an instance can reach.
use odoo_k8_operator.Base.{
  String, Bool, true, false, ◌&&◌, ◌||◌, not, ◌==◌, List, [], ◌∷◌, any, all, lines, ◌⧺◌, ◌≡◌,
}
use odoo_k8_operator.Kube.Batch.{Volume, Container, PodSpec}
use odoo_k8_operator.Kube.Mounts.{has_volume, has_env, all_secret, mounts_at}
use odoo_k8_operator.Api.Instance.{OdooInstance}
use odoo_k8_operator.Instance.Workload.{
  admin_password_rendered, build_web_args, render_config_container, rendered_volume,
  rendered_volume_mount,
}
use odoo_k8_operator.Instance.Workload.Template.{odoo_pod_spec}

abbrev is_password : String → Bool
is_password n = n == "PGPASSWORD" || n == "DB_PASSWORD" || n == "ODOO_ADMIN_PASSWD"

-- A container of the pod, over the pod's volumes.
pub record IsConfined (vs : List Volume) (c : Container) : Type 0 where
  -- Each mount names a volume of the pod.
  pub mounted : all (has_volume vs) c.mounts ≡ true
  pub addons_read_only : all (λ m. not (m.name == "addons") || m.read_only) c.mounts ≡ true
  pub passwords_secret : all_secret is_password c.env ≡ true
  pub no_escalation : c.security.allow_privilege_escalation ≡ false
  pub read_only_root : c.security.read_only_root ≡ true
  pub dropped : c.security.dropped ≡ "ALL" ∷ []

abbrev pub AllConfined : List Volume → List Container → Type 0
AllConfined vs [] = Unit {0}
AllConfined vs (c ∷ cs) = IsConfined vs c × AllConfined vs cs

-- The container is started with this configuration.
abbrev has_args : String → List String → Bool
has_args path [] = false
has_args path (x ∷ []) = false
has_args path (x ∷ y ∷ rest) = x == "--config" && y == path

-- The command that writes the configuration of the ConfigMap, and the master password after it, where
-- the web container reads it.
abbrev render_line : String
render_line =
    "{ cat /etc/odoo/odoo.conf; printf 'admin_passwd = %s\\n' \"$ODOO_ADMIN_PASSWD\"; } "
    ⧺ "> /run/odoo-conf/odoo.conf"

-- The command line is that of a shell with a script that has the line.
runs_line : String → List String → Bool
unfolding lines
runs_line line (shell ∷ flag ∷ script ∷ []) =
    shell == "/bin/sh" && flag == "-c" && any (λ l. l == line) (lines script)
runs_line line command = false

-- The container gets the master password, and writes it with the configuration.
pub renders : Container → Bool
unfolding runs_line
renders c =
    has_env "ODOO_ADMIN_PASSWD" c
    && mounts_at "odoo-rendered" "/run/odoo-conf" false c
    && mounts_at "odoo-config" "/etc/odoo" true c
    && runs_line render_line c.command

-- A pod of an instance.
pub record IsSound (pod : PodSpec) : Type 0 where
  pub confined : AllConfined pod.volumes pod.containers
  pub inits_confined : AllConfined pod.volumes pod.init_containers
  -- No container that serves has the master password in its environment.
  pub no_master : any (has_env "ODOO_ADMIN_PASSWD") pod.containers ≡ false
  pub non_root : pod.security.run_as_non_root ≡ true
  pub no_token : pod.automount_token ≡ false

-- The web pod reads the configuration with the master password where one is named, from memory, and
-- the one container before it writes it there; without one it reads the ConfigMap.
pub record IsConfigured (inst : OdooInstance) (pod : PodSpec) : Type 0 where
  pub rendered :
      admin_password_rendered inst.spec ≡ true
      → (all
            (λ c.
              has_args "/run/odoo-conf/odoo.conf" c.args
              && mounts_at "odoo-rendered" "/run/odoo-conf" true c)
            pod.containers
          ≡ true)
        × (c : Container) × (pod.init_containers ≡ c ∷ [])
        × (renders c ≡ true)
  pub plain :
      admin_password_rendered inst.spec ≡ false
      → (all
            (λ c.
              has_args "/etc/odoo/odoo.conf" c.args && mounts_at "odoo-config" "/etc/odoo" true c)
            pod.containers
          ≡ true)
        × (pod.init_containers ≡ [])

abbrev rendered_pod : OdooInstance → PodSpec
rendered_pod inst =
    odoo_pod_spec inst (build_web_args inst.spec) (rendered_volume_mount ∷ [])
      (rendered_volume ∷ []) (render_config_container inst ∷ [])
