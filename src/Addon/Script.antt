-- ===== src/Addon/Script.antt =====
-- The shell scripts of an OdooAddon's Jobs: buildSyncScript and buildCleanupScript of internal/
-- controller/odooaddon_sync.go, as texts.
pub mod Frames
pub mod Quoted
use odoo_k8_operator.Base.{String, Bool, not, ◌&&◌, ◌⧺◌, ◌==◌, if◌then◌else◌}
use odoo_k8_operator.Shell.{sh_quote}
use odoo_k8_operator.Instance.Addons.{addons_mount_path}
use odoo_k8_operator.Addon.Spec.{
  SyncSpec, GitAuthMode, auth_none, auth_https_token, auth_ssh, is_commit_sha,
}

abbrev pub sync_repo_dir : String
sync_repo_dir = "/tmp/repo"

abbrev pub sync_releases_dir : String
sync_releases_dir = ".releases"

abbrev pub sync_manifest : String
sync_manifest = "__manifest__.py"

abbrev pub sync_modules_file : String
sync_modules_file = ".modules"

abbrev pub sync_modules_scratch : String
sync_modules_scratch = "/tmp/modules.list"

abbrev pub sync_prev_scratch : String
sync_prev_scratch = "/tmp/modules.prev"

abbrev pub env_git_username : String
env_git_username = "GIT_USERNAME"

abbrev pub default_git_user : String
default_git_user = "x-access-token"

-- publishFn
publish_fn : String
publish_fn =
    "publish() {\n" ⧺ "  name=$1\n" ⧺ "  src=$2\n" ⧺ "  if [ ! -d \"$REL/$name\" ]; then\n"
    ⧺ "    rm -rf \"$REL/.$name.partial\"\n" ⧺ "    cp -a \"$src\" \"$REL/.$name.partial\"\n"
    ⧺ "    rm -rf \"$REL/.$name.partial/.git\"\n"
    ⧺ "    mv \"$REL/.$name.partial\" \"$REL/$name\"\n" ⧺ "  fi\n" ⧺ "  target=\"$ADDONS/$name\"\n"
    ⧺ "  if [ -d \"$target\" ] && [ ! -L \"$target\" ]; then\n" ⧺ "    rm -rf \"$target\"\n"
    ⧺ "  fi\n" ⧺ "  ln -sfn \"$REL/$name\" \"$ADDONS/.$name.tmp\"\n"
    ⧺ "  mv -T \"$ADDONS/.$name.tmp\" \"$target\"\n" ⧺ "}\n"

-- conflictCheck
conflict_check : String
conflict_check =
    "while IFS= read -r name; do\n" ⧺ "  target=\"$ADDONS/$name\"\n"
    ⧺ "  if [ -L \"$target\" ]; then\n" ⧺ "    dest=$(readlink \"$target\")\n"
    ⧺ "    case \"$dest\" in\n" ⧺ "      \"$ADDONS/.releases/\"*)\n" ⧺ "        case \"$dest\" in\n"
    ⧺ "          \"$RELROOT/\"*) ;;\n" ⧺ "          *)\n"
    ⧺ "            other=${dest#\"$ADDONS/.releases/\"}\n" ⧺ "            other=${other%%/*}\n"
    ⧺ "            echo \"module $name is already provided by addon $other\" >&2\n"
    ⧺ "            exit 1\n" ⧺ "            ;;\n" ⧺ "        esac\n" ⧺ "        ;;\n" ⧺ "    esac\n"
    ⧺ "  fi\n" ⧺ "done < \"$MODLIST\"\n"

-- staleRemoval
stale_removal : String
stale_removal =
    "while IFS= read -r old; do\n" ⧺ "  [ -n \"$old\" ] || continue\n"
    ⧺ "  if grep -qxF \"$old\" \"$MODLIST\"; then continue; fi\n" ⧺ "  target=\"$ADDONS/$old\"\n"
    ⧺ "  if [ -L \"$target\" ]; then\n" ⧺ "    case \"$(readlink \"$target\")\" in\n"
    ⧺ "      \"$RELROOT/\"*) rm -f \"$target\" ;;\n" ⧺ "    esac\n" ⧺ "  fi\n"
    ⧺ "done < \"$PREV\"\n"

-- gitCmd and authSetup
unfoldable pub git_cmd : GitAuthMode → String
git_cmd auth_https_token = "git -c \"http.extraHeader=Authorization: Basic $AUTH\""
git_cmd auth_none = "git"
git_cmd auth_ssh = "git"

unfoldable pub auth_setup : GitAuthMode → String
auth_setup auth_https_token =
    "GIT_USERNAME=\"${" ⧺ env_git_username ⧺ ":-" ⧺ default_git_user ⧺ "}\"\n"
    ⧺ "AUTH=$(printf '%s:%s' \"$GIT_USERNAME\" \"$GIT_TOKEN\" | base64 | tr -d '\\n')\n"
auth_setup auth_none = ""
auth_setup auth_ssh = ""

-- A commit is fetched as an object, a branch or tag is cloned.
unfoldable pub fetch : String → Bool → String
fetch cmd commit =
    if commit
    then "git init " ⧺ sync_repo_dir ⧺ "\n" ⧺ "git -C " ⧺ sync_repo_dir
      ⧺ " remote add origin \"$GIT_URL\"\n" ⧺ cmd ⧺ " -C " ⧺ sync_repo_dir
      ⧺ " fetch --depth 1 origin \"$GIT_REF\"\n" ⧺ "git -C " ⧺ sync_repo_dir
      ⧺ " checkout --detach FETCH_HEAD\n"
    else cmd ⧺ " clone --depth 1 --branch \"$GIT_REF\" \"$GIT_URL\" " ⧺ sync_repo_dir ⧺ "\n"

-- The directory whose folders are the modules.
unfoldable pub modules_source : SyncSpec → String
modules_source s =
    if not s.single_addon && not (s.addon_path == "")
    then sync_repo_dir ⧺ "/" ⧺ s.addon_path
    else sync_repo_dir

-- The line that lists the only module, and the one that publishes it.
unfoldable pub discover_one : String → String
unfolding sh_quote
discover_one name = "printf '%s\\n' " ⧺ sh_quote name ⧺ " > \"$MODLIST\"\n"

-- The command that publishes the only module.
unfoldable pub publish_one : String → String
unfolding sh_quote
publish_one name = "publish " ⧺ sh_quote name ⧺ " " ⧺ sync_repo_dir ⧺ "\n"

discover_all : String → String
discover_all src =
    "for mod in " ⧺ src ⧺ "/*/; do\n" ⧺ "  if [ -f \"$mod/" ⧺ sync_manifest ⧺ "\" ]; then\n"
    ⧺ "    basename \"$mod\" >> \"$MODLIST\"\n" ⧺ "  fi\n" ⧺ "done\n"
    ⧺ "[ -s \"$MODLIST\" ] || { echo \"no Odoo modules found in " ⧺ src ⧺ "\" >&2; exit 1; }\n"

publish_all : String → String
publish_all src =
    "while IFS= read -r name; do\n" ⧺ "  publish \"$name\" \"" ⧺ src ⧺ "/$name\"\n"
    ⧺ "done < \"$MODLIST\"\n"

unfoldable pub discover : SyncSpec → String
unfolding discover_one discover_all modules_source
discover s = if s.single_addon then discover_one s.module_name else discover_all (modules_source s)

unfoldable pub publish_calls : SyncSpec → String
unfolding publish_one publish_all modules_source
publish_calls s =
    if s.single_addon then publish_one s.module_name else publish_all (modules_source s)

unfoldable pub manifest_check : SyncSpec → String
manifest_check s =
    if s.single_addon
    then "[ -f " ⧺ sync_repo_dir ⧺ "/" ⧺ sync_manifest ⧺ " ] || { echo \"no " ⧺ sync_manifest
      ⧺ " at the repository root of " ⧺ s.module_name ⧺ "\" >&2; exit 1; }\n"
    else ""

-- The list that the sync before left, if it left one.
previous_modules : String
previous_modules =
    "if [ -f \"$RELROOT/" ⧺ sync_modules_file ⧺ "\" ]; then cp \"$RELROOT/" ⧺ sync_modules_file
    ⧺ "\" \"$PREV\"; else : > \"$PREV\"; fi\n"

-- The list of this sync, moved in place in one step; old releases; the two lines of the report.
closing : String
closing =
    "cp \"$MODLIST\" \"$RELROOT/" ⧺ sync_modules_file ⧺ ".tmp\"\n" ⧺ "mv \"$RELROOT/"
    ⧺ sync_modules_file ⧺ ".tmp\" \"$RELROOT/" ⧺ sync_modules_file ⧺ "\"\n"
    ⧺ "ls -1t \"$RELROOT\" | tail -n +3 | while IFS= read -r old; do rm -rf \"$RELROOT/$old\"; done\n"
    ⧺ "printf 'modules: %s\\n' \"$(paste -sd, \"$MODLIST\")\"\n" ⧺ "git -C " ⧺ sync_repo_dir
    ⧺ " rev-parse HEAD\n"

-- buildSyncScript, once the ref is known to be a commit or not
unfoldable pub sync_script_for : Bool → SyncSpec → String
unfolding git_cmd auth_setup fetch manifest_check sh_quote discover conflict_check previous_modules
    publish_fn publish_calls stale_removal closing
sync_script_for commit s =
    "set -e\n"
    ⧺ "set +x\n"
    ⧺ "export GIT_TERMINAL_PROMPT=0\n"
    ⧺ auth_setup s.auth
    ⧺ fetch (git_cmd s.auth) commit
    ⧺ manifest_check s
    ⧺ "SHA=$(git -C "
    ⧺ sync_repo_dir
    ⧺ " rev-parse HEAD)\n"
    ⧺ "ADDONS="
    ⧺ addons_mount_path
    ⧺ "\n"
    ⧺ "RELROOT="
    ⧺ sh_quote (addons_mount_path ⧺ "/" ⧺ sync_releases_dir ⧺ "/" ⧺ s.addon_name)
    ⧺ "\n"
    ⧺ "REL=\"$RELROOT/$SHA\"\n"
    ⧺ "MODLIST="
    ⧺ sync_modules_scratch
    ⧺ "\n"
    ⧺ "PREV="
    ⧺ sync_prev_scratch
    ⧺ "\n"
    ⧺ ": > \"$MODLIST\"\n"
    ⧺ discover s
    ⧺ "sort -u \"$MODLIST\" -o \"$MODLIST\"\n"
    ⧺ conflict_check
    ⧺ previous_modules
    ⧺ "mkdir -p \"$REL\"\n"
    ⧺ publish_fn
    ⧺ publish_calls s
    ⧺ "touch \"$REL\"\n"
    ⧺ stale_removal
    ⧺ closing

-- buildSyncScript
unfoldable pub build_sync_script : SyncSpec → String
unfolding sync_script_for is_commit_sha
build_sync_script s = sync_script_for (is_commit_sha s.git_ref) s

-- buildCleanupScript
unfoldable pub build_cleanup_script : String → String
unfolding sh_quote
build_cleanup_script addon_name =
    "set -e\n"
    ⧺ "set +x\n"
    ⧺ "ADDONS="
    ⧺ addons_mount_path
    ⧺ "\n"
    ⧺ "RELROOT="
    ⧺ sh_quote (addons_mount_path ⧺ "/" ⧺ sync_releases_dir ⧺ "/" ⧺ addon_name)
    ⧺ "\n"
    ⧺ "if [ -d \"$ADDONS\" ]; then\n"
    ⧺ "  find \"$ADDONS\" -mindepth 1 -maxdepth 1 -type l | while IFS= read -r link; do\n"
    ⧺ "    case \"$(readlink \"$link\")\" in\n"
    ⧺ "      \"$RELROOT/\"*) rm -f \"$link\" ;;\n"
    ⧺ "    esac\n"
    ⧺ "  done\n"
    ⧺ "fi\n"
    ⧺ "rm -rf \"$RELROOT\"\n"
