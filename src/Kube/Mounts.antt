-- ===== src/Kube/Mounts.antt =====
-- What the theorems on pods say of containers: their mounts and where their credentials come from.
use odoo_k8_operator.Base.{String, Bool, true, ◌&&◌, not, ◌==◌, if◌then◌else◌, List, [], ◌∷◌, any}
use odoo_k8_operator.Kube.Batch.{EnvVar, plain, from_secret, VolumeMount, Volume, Container}

abbrev pub has_volume : List Volume → VolumeMount → Bool
has_volume vs m = any (λ v. v.name == m.name) vs

abbrev pub env_name : EnvVar → String
env_name (plain n v) = n
env_name (from_secret n secret key) = n

-- The container has the variable.
abbrev pub has_env : String → Container → Bool
has_env name c = any (λ e. env_name e == name) c.env

-- Of the variables that the test picks, none is a plain value.
abbrev pub all_secret : (String → Bool) → List EnvVar → Bool
all_secret p [] = true
all_secret p (plain n v ∷ es) = not (p n) && all_secret p es
all_secret p (from_secret n s k ∷ es) = all_secret p es

-- The container mounts the volume, to read only or also to write.
abbrev pub mounts_at : String → String → Bool → Container → Bool
mounts_at name path read_only c =
    any
      (λ m.
        m.name == name
        && m.mount_path == path
        && (if read_only then m.read_only else not m.read_only))
      c.mounts
