-- ===== src/Backup/Script.antt =====
-- internal/controller/odoobackup_script.go: the texts of the shell scripts that a backup pod runs.
use odoo_k8_operator.Base.{String, Bool, ◌⧺◌, if◌then◌else◌, quote}

abbrev pub env_backup_database : String
env_backup_database = "BACKUP_DATABASE"

abbrev pub env_backup_retention : String
env_backup_retention = "BACKUP_RETENTION"

abbrev pub env_backup_bucket : String
env_backup_bucket = "BACKUP_BUCKET"

abbrev pub env_backup_prefix : String
env_backup_prefix = "BACKUP_PREFIX"

abbrev pub env_backup_endpoint : String
env_backup_endpoint = "BACKUP_ENDPOINT"

abbrev pub env_backup_force_path : String
env_backup_force_path = "BACKUP_FORCE_PATH_STYLE"

abbrev pub backup_filestore_root : String
backup_filestore_root = "/var/lib/odoo/filestore"

abbrev pub backup_pvc_dir : String
backup_pvc_dir = "/backup"

abbrev pub backup_scratch_dir : String
backup_scratch_dir = "/scratch"

abbrev pub backup_manifest_name : String
backup_manifest_name = ".files"

abbrev pub backup_result_prefix : String
backup_result_prefix = "backup: "

-- The archive of the filestore, where its directory exists.
filestore_steps : String
filestore_steps =
    "FS=\"$" ⧺ env_backup_database ⧺ "-$STAMP-filestore.tar.gz\"\n" ⧺ "FSDIR="
    ⧺ backup_filestore_root ⧺ "/\"$" ⧺ env_backup_database ⧺ "\"\n" ⧺ "if [ -d \"$FSDIR\" ]; then\n"
    ⧺ "  tar -C \"${FSDIR%/*}\" -czf \"$DIR/.$FS.partial\" \"${FSDIR##*/}\"\n"
    ⧺ "  mv \"$DIR/.$FS.partial\" \"$DIR/$FS\"\n" ⧺ "  record \"$FS\"\n" ⧺ "else\n"
    ⧺ "  echo \"warning: filestore directory $FSDIR does not exist yet, skipping the filestore archive\"\n"
    ⧺ "fi\n"

-- backupDumpSteps
unfoldable pub backup_dump_steps : String → Bool → String
unfolding filestore_steps
backup_dump_steps dir include_filestore =
    "DIR="
    ⧺ quote dir
    ⧺ "\n"
    ⧺ "STAMP=$(date -u +"
    ⧺ quote "%Y%m%dT%H%M%SZ"
    ⧺ ")\n"
    ⧺ "FILES=\"\"\n"
    ⧺ "record() {\n"
    ⧺ "  FILES=\"${FILES:+$FILES,}$1\"\n"
    ⧺ "}\n"
    ⧺ "DUMP=\"$"
    ⧺ env_backup_database
    ⧺ "-$STAMP.dump\"\n"
    ⧺ "pg_dump --format=custom --no-owner --no-password --file \"$DIR/.$DUMP.partial\"\n"
    ⧺ "mv \"$DIR/.$DUMP.partial\" \"$DIR/$DUMP\"\n"
    ⧺ "record \"$DUMP\"\n"
    ⧺ (if include_filestore then filestore_steps else "")

abbrev pub backup_cleanup_trap : String
backup_cleanup_trap = "trap 'rm -f -- \"$DIR\"/.*.partial 2>/dev/null' EXIT\n"

-- The glob of the dumps of the database, which sorts oldest first.
abbrev dump_glob : String
dump_glob = "[0-9][0-9][0-9][0-9][0-9][0-9][0-9][0-9]T[0-9][0-9][0-9][0-9][0-9][0-9]Z.dump"

prune_function : String
prune_function =
    "\n# Retention: names carry a UTC timestamp, so the glob sorts oldest first.\n"
    ⧺ "prune_dumps() {\n" ⧺ "  keep=$1\n" ⧺ "  total=0\n" ⧺ "  for f in \"$DIR/$BACKUP_DATABASE\"-"
    ⧺ dump_glob ⧺ "; do\n" ⧺ "    [ -e \"$f\" ] || continue\n" ⧺ "    total=$((total + 1))\n"
    ⧺ "  done\n" ⧺ "  drop=$((total - keep))\n" ⧺ "  i=0\n"
    ⧺ "  for f in \"$DIR/$BACKUP_DATABASE\"-" ⧺ dump_glob ⧺ "; do\n"
    ⧺ "    [ -e \"$f\" ] || continue\n" ⧺ "    i=$((i + 1))\n"
    ⧺ "    if [ \"$i\" -le \"$drop\" ]; then\n"
    ⧺ "      rm -f -- \"$f\" \"${f%.dump}-filestore.tar.gz\"\n"
    ⧺ "      echo \"pruned: $(basename \"$f\")\"\n" ⧺ "    fi\n" ⧺ "  done\n" ⧺ "}\n"

-- buildBackupPVCScript
unfoldable pub build_backup_pvc_script : Bool → String
unfolding backup_dump_steps prune_function
build_backup_pvc_script include_filestore =
    "set -eu\nexport LC_ALL=C\n"
    ⧺ backup_dump_steps backup_pvc_dir include_filestore
    ⧺ backup_cleanup_trap
    ⧺ prune_function
    ⧺ "if [ \"${"
    ⧺ env_backup_retention
    ⧺ ":-0}\" -gt 0 ]; then\n  prune_dumps \"$"
    ⧺ env_backup_retention
    ⧺ "\"\nfi\n"
    ⧺ "echo \""
    ⧺ backup_result_prefix
    ⧺ "$FILES\"\n"

-- buildBackupDumpScript
unfoldable pub build_backup_dump_script : Bool → String
unfolding backup_dump_steps
build_backup_dump_script include_filestore =
    "set -eu\nexport LC_ALL=C\n"
    ⧺ backup_dump_steps backup_scratch_dir include_filestore
    ⧺ backup_cleanup_trap
    ⧺ "printf '%s' \"$FILES\" | tr ',' '\\n' > \"$DIR/"
    ⧺ backup_manifest_name
    ⧺ "\"\n"
    ⧺ "echo \"dumped: $FILES\"\n"

upload_head : String
upload_head =
    "set -eu\n" ⧺ "export LC_ALL=C\n" ⧺ "DIR=/scratch\n"
    ⧺ "export AWS_CONFIG_FILE=/tmp/aws-config\n" ⧺ "if [ \"${" ⧺ env_backup_force_path
    ⧺ ":-false}\" = \"true\" ]; then\n"
    ⧺ "  printf '[default]\\ns3 =\\n  addressing_style = path\\n' > \"$AWS_CONFIG_FILE\"\n" ⧺ "fi\n"
    ⧺ "awscli() {\n" ⧺ "  if [ -n \"${" ⧺ env_backup_endpoint ⧺ ":-}\" ]; then\n"
    ⧺ "    aws --endpoint-url \"$" ⧺ env_backup_endpoint ⧺ "\" \"$@\"\n" ⧺ "  else\n"
    ⧺ "    aws \"$@\"\n" ⧺ "  fi\n" ⧺ "}\n" ⧺ "KEYPREFIX=\"\"\n" ⧺ "if [ -n \"${"
    ⧺ env_backup_prefix ⧺ ":-}\" ]; then\n" ⧺ "  KEYPREFIX=\"${" ⧺ env_backup_prefix ⧺ "%/}/\"\n"
    ⧺ "fi\n"

upload_files : String
upload_files =
    "if [ ! -s \"$DIR/" ⧺ backup_manifest_name ⧺ "\" ]; then\n"
    ⧺ "  echo \"error: backup manifest $DIR/" ⧺ backup_manifest_name ⧺ " is missing\" >&2\n"
    ⧺ "  exit 1\n" ⧺ "fi\n" ⧺ "FILES=\"\"\n" ⧺ "while IFS= read -r name; do\n"
    ⧺ "  [ -n \"$name\" ] || continue\n" ⧺ "  awscli s3 cp \"$DIR/$name\" \"s3://$"
    ⧺ env_backup_bucket ⧺ "/$KEYPREFIX$name\"\n" ⧺ "  FILES=\"${FILES:+$FILES,}$name\"\n"
    ⧺ "done < \"$DIR/" ⧺ backup_manifest_name ⧺ "\"\n\n"

upload_prune : String
upload_prune =
    "# Retention: list the database's dumps under the prefix, newest first, and delete the rest.\n"
    ⧺ "if [ \"${" ⧺ env_backup_retention ⧺ ":-0}\" -gt 0 ]; then\n"
    ⧺ "  awscli s3api list-objects-v2 --bucket \"$" ⧺ env_backup_bucket ⧺ "\" \\\n"
    ⧺ "    --prefix \"$KEYPREFIX$" ⧺ env_backup_database
    ⧺ "-\" --query 'Contents[].Key' --output text \\\n"
    ⧺ "    | tr '\\t' '\\n' | sort -r > \"$DIR/.keys\"\n" ⧺ "  : > \"$DIR/.dumpkeys\"\n"
    ⧺ "  while IFS= read -r key; do\n" ⧺ "    case \"$key\" in\n" ⧺ "      \"$KEYPREFIX$"
    ⧺ env_backup_database ⧺ "\"-" ⧺ dump_glob ⧺ ")\n"
    ⧺ "        echo \"$key\" >> \"$DIR/.dumpkeys\" ;;\n" ⧺ "    esac\n"
    ⧺ "  done < \"$DIR/.keys\"\n" ⧺ "  n=0\n" ⧺ "  while IFS= read -r key; do\n"
    ⧺ "    n=$((n + 1))\n" ⧺ "    if [ \"$n\" -gt \"$" ⧺ env_backup_retention ⧺ "\" ]; then\n"
    ⧺ "      awscli s3api delete-object --bucket \"$" ⧺ env_backup_bucket
    ⧺ "\" --key \"$key\" >/dev/null\n" ⧺ "      awscli s3api delete-object --bucket \"$"
    ⧺ env_backup_bucket ⧺ "\" --key \"${key%.dump}-filestore.tar.gz\" >/dev/null\n"
    ⧺ "      echo \"pruned: $key\"\n" ⧺ "    fi\n" ⧺ "  done < \"$DIR/.dumpkeys\"\n" ⧺ "fi\n"

-- buildBackupUploadScript
unfoldable pub build_backup_upload_script : String
unfolding upload_head upload_files upload_prune
build_backup_upload_script =
    upload_head ⧺ upload_files ⧺ upload_prune ⧺ "echo \"" ⧺ backup_result_prefix ⧺ "$FILES\"\n"
