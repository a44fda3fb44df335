-- ===== src/Addon/Script/Frames.antt =====
-- Where a user's values stand in the scripts of an OdooAddon's Jobs: buildSyncScript and
-- buildCleanupScript of internal/controller/odooaddon_sync.go. A frame is what does not depend on them.
use text.Mathlib.TextLemmas.{append-nil, nil-append, append_assoc}
use odoo_k8_operator.Base.{
  String, Bool, true, false, ◌==◌, ◌⧺◌, List, [], ◌∷◌, join, some, ◌≡◌, refl, ◌∙◌, sym, ap, subst,
  inl, inr, Bool-cases, if◌then◌else◌,
}
use odoo_k8_operator.Shell.{sh_quote}
use odoo_k8_operator.Shell.Words.{sh_words}
use odoo_k8_operator.Shell.Quoting.{sh_words-sh_quote}
use odoo_k8_operator.Instance.Addons.{addons_mount_path}
use odoo_k8_operator.Addon.Spec.{SyncSpec, GitAuthMode, is_commit_sha}
use odoo_k8_operator.Addon.Script.{
  sync_repo_dir, sync_releases_dir, sync_manifest, sync_modules_scratch, sync_prev_scratch, git_cmd,
  auth_setup, fetch, manifest_check, discover_one, discover_all, discover, modules_source,
  publish_all, conflict_check, previous_modules, publish_fn, publish_one, publish_calls,
  stale_removal, closing, sync_script_for, build_sync_script, build_cleanup_script,
}

-- The text is one word of a shell, and that word is this.
abbrev pub IsWord : String → String → Type 0
IsWord text word = sh_words text ≡ some (word ∷ [])

-- One quoted word is one word.
pub quoted-IsWord : (s : String) → IsWord (sh_quote s) s
unfolding join
quoted-IsWord s = ap sh_words (sym (append-nil (sh_quote s))) ∙ sh_words-sh_quote (s ∷ [])

abbrev pub store_of : String → String
store_of addon_name = "/mnt/odoo/addons/.releases/" ⧺ addon_name

-- The sync script of a single module: a frame that is fixed by the kind of the ref and by the
-- authentication alone, in which stand the module's name, to name it in a message, the release store
-- and twice the module's name for a word.
pub record SingleFrame (commit : Bool) (auth : GitAuthMode) : Type 0 where
  pub start : String
  pub checked : String
  pub listed : String
  pub published : String
  pub rest : String
  pub script :
      (s : SyncSpec)
      → s.single_addon ≡ true
      → is_commit_sha s.git_ref ≡ commit
      → s.auth ≡ auth
      → (store name : String) × IsWord store (store_of s.addon_name)
        × IsWord name s.module_name
        × (build_sync_script s
            ≡ start ⧺ s.module_name ⧺ checked ⧺ "RELROOT=" ⧺ store ⧺ "\n" ⧺ listed
              ⧺ "printf '%s\\n' " ⧺ name ⧺ " > \"$MODLIST\"\n" ⧺ published ⧺ "publish " ⧺ name
              ⧺ " /tmp/repo\n" ⧺ rest)

-- The folder whose folders are the modules.
abbrev pub folder_of : String → String
folder_of path = if path == "" then "/tmp/repo" else "/tmp/repo/" ⧺ path

-- The sync script of all modules of a folder: a frame as before, in which stand the release store and
-- three times the folder as it is.
pub record FolderFrame (commit : Bool) (auth : GitAuthMode) : Type 0 where
  pub start : String
  pub listed : String
  pub found : String
  pub staged : String
  pub rest : String
  pub script :
      (s : SyncSpec)
      → s.single_addon ≡ false
      → is_commit_sha s.git_ref ≡ commit
      → s.auth ≡ auth
      → (store : String) × IsWord store (store_of s.addon_name)
        × (build_sync_script s
            ≡ start
              ⧺ "RELROOT="
              ⧺ store
              ⧺ "\n"
              ⧺ listed
              ⧺ "for mod in "
              ⧺ folder_of s.addon_path
              ⧺ found
              ⧺ folder_of s.addon_path
              ⧺ staged
              ⧺ "  publish \"$name\" \""
              ⧺ folder_of s.addon_path
              ⧺ "/$name\"\n"
              ⧺ rest)

-- The cleanup script, of any addon.
pub record CleanupFrame : Type 0 where
  pub start : String
  pub rest : String
  pub script :
      (addon_name : String)
      → (store : String) × IsWord store (store_of addon_name)
        × (build_cleanup_script addon_name ≡ start ⧺ "RELROOT=" ⧺ store ⧺ "\n" ⧺ rest)

-- Pieces one after the other, and then a text.
prepend : List String → String → String
prepend [] s = s
prepend (x ∷ xs) s = x ⧺ prepend xs s

prepend-append : (xs : List String) (s t : String) → prepend xs s ⧺ t ≡ prepend xs (s ⧺ t)
unfolding prepend
prepend-append [] s t = refl
prepend-append (x ∷ xs) s t =
    append_assoc x (prepend xs s) t ∙ ap (λ u. x ⧺ u) (prepend-append xs s t)

-- A piece of a frame, put before the rest.
piece-append : (xs : List String) (t : String) → prepend xs "" ⧺ t ≡ prepend xs t
piece-append xs t = prepend-append xs "" t ∙ ap (prepend xs) (nil-append t)

store-text :
    (name : String) → addons_mount_path ⧺ "/" ⧺ sync_releases_dir ⧺ "/" ⧺ name ≡ store_of name
store-text name =
    sym (append_assoc "/mnt/odoo/addons" "/" (".releases" ⧺ "/" ⧺ name))
    ∙ sym (append_assoc "/mnt/odoo/addons/" ".releases" ("/" ⧺ name))
    ∙ sym (append_assoc "/mnt/odoo/addons/.releases" "/" name)

quoted_store :
    (name : String)
    → IsWord (sh_quote (addons_mount_path ⧺ "/" ⧺ sync_releases_dir ⧺ "/" ⧺ name)) (store_of name)
quoted_store name =
    subst (λ p. IsWord (sh_quote p) (store_of name)) (sym (store-text name))
      (quoted-IsWord (store_of name))

module _ (commit : Bool) (auth : GitAuthMode) where
  opening : List String
  opening =
      "set -e\n"
      ∷ "set +x\n"
      ∷ "export GIT_TERMINAL_PROMPT=0\n"
      ∷ auth_setup auth
      ∷ fetch (git_cmd auth) commit
      ∷ []

  -- The check for the manifest, up to the module's name.
  manifest : List String
  manifest =
      "[ -f " ∷ sync_repo_dir ∷ "/" ∷ sync_manifest ∷ " ] || { echo \"no " ∷ sync_manifest
      ∷ " at the repository root of " ∷ []

  places : List String
  places =
      "SHA=$(git -C " ∷ sync_repo_dir ∷ " rev-parse HEAD)\n" ∷ "ADDONS=" ∷ addons_mount_path ∷ "\n"
      ∷ []

  variables : List String
  variables =
      "REL=\"$RELROOT/$SHA\"\n" ∷ "MODLIST=" ∷ sync_modules_scratch ∷ "\n" ∷ "PREV="
      ∷ sync_prev_scratch ∷ "\n" ∷ ": > \"$MODLIST\"\n" ∷ []

  staging : List String
  staging =
      "sort -u \"$MODLIST\" -o \"$MODLIST\"\n" ∷ conflict_check ∷ previous_modules
      ∷ "mkdir -p \"$REL\"\n" ∷ publish_fn ∷ []

  ending : String
  ending = "touch \"$REL\"\n" ⧺ stale_removal ⧺ closing

  -- The script, around what the spec chooses.
  sync_script-parts :
      (s : SyncSpec)
      → is_commit_sha s.git_ref ≡ commit
      → s.auth ≡ auth
      → build_sync_script s
        ≡ prepend opening ""
          ⧺ manifest_check s
          ⧺ prepend places ""
          ⧺ "RELROOT="
          ⧺ sh_quote (addons_mount_path ⧺ "/" ⧺ sync_releases_dir ⧺ "/" ⧺ s.addon_name)
          ⧺ "\n"
          ⧺ prepend variables ""
          ⧺ discover s
          ⧺ prepend staging ""
          ⧺ publish_calls s
          ⧺ ending
  unfolding prepend opening places variables staging ending build_sync_script sync_script_for
  sync_script-parts s c a =
      let root = sh_quote (addons_mount_path ⧺ "/" ⧺ sync_releases_dir ⧺ "/" ⧺ s.addon_name) in
      let z4 = publish_calls s ⧺ ending in
      let z3 = discover s ⧺ prepend staging "" ⧺ z4 in
      let z2 = prepend places "" ⧺ "RELROOT=" ⧺ root ⧺ "\n" ⧺ prepend variables "" ⧺ z3 in
      let e4 = piece-append staging z4 in
      let e3 = piece-append variables z3 in
      let e2 = piece-append places ("RELROOT=" ⧺ root ⧺ "\n" ⧺ prepend variables "" ⧺ z3) in
      let e1 = piece-append opening (manifest_check s ⧺ z2) in rw c (rw a cc)

  manifest_check-parts :
      (s : SyncSpec) (z : String)
      → s.single_addon ≡ true
      → manifest_check s ⧺ z ≡ prepend manifest "" ⧺ s.module_name ⧺ "\" >&2; exit 1; }\n" ⧺ z
  unfolding prepend manifest manifest_check
  manifest_check-parts s z one =
      let said = s.module_name ⧺ "\" >&2; exit 1; }\n" in
      rw one (
        prepend-append manifest said z
        ∙ ap (prepend manifest) (append_assoc s.module_name "\" >&2; exit 1; }\n" z)
        ∙ sym (piece-append manifest (s.module_name ⧺ "\" >&2; exit 1; }\n" ⧺ z)))

  discover_one-parts :
      (name z : String)
      → discover_one name ⧺ z ≡ "printf '%s\\n' " ⧺ sh_quote name ⧺ " > \"$MODLIST\"\n" ⧺ z
  unfolding discover_one
  discover_one-parts name z =
      append_assoc "printf '%s\\n' " (sh_quote name ⧺ " > \"$MODLIST\"\n") z
      ∙ ap (λ u. "printf '%s\\n' " ⧺ u) (append_assoc (sh_quote name) " > \"$MODLIST\"\n" z)

  publish_one-parts :
      (name z : String) → publish_one name ⧺ z ≡ "publish " ⧺ sh_quote name ⧺ " /tmp/repo\n" ⧺ z
  unfolding publish_one
  publish_one-parts name z =
      append_assoc "publish " (sh_quote name ⧺ " /tmp/repo\n") z
      ∙ ap (λ u. "publish " ⧺ u) (append_assoc (sh_quote name) " /tmp/repo\n" z)

  pub single-frame : SingleFrame commit auth
  unfolding discover publish_calls
  single-frame = record {
    start = prepend opening "" ⧺ prepend manifest "";
    checked = "\" >&2; exit 1; }\n" ⧺ prepend places "";
    listed = prepend variables "";
    published = prepend staging "";
    rest = ending;
    script = λ s one c a.
        let name = s.module_name in
        let root = sh_quote (addons_mount_path ⧺ "/" ⧺ sync_releases_dir ⧺ "/" ⧺ s.addon_name) in
        let z4 = publish_one name ⧺ ending in
        let z3 = prepend staging "" ⧺ z4 in
        let z2 = "RELROOT=" ⧺ root ⧺ "\n" ⧺ prepend variables "" ⧺ discover_one name ⧺ z3 in
        let z1 = name ⧺ "\" >&2; exit 1; }\n" ⧺ prepend places "" ⧺ z2 in
        let whole = sync_script-parts s c a in
        let found : discover s ≡ discover_one name = rw one refl in
        let calls : publish_calls s ≡ publish_one name = rw one refl in
        let e4 = publish_one-parts name ending in
        let e3 = discover_one-parts name z3 in
        let e2 = append_assoc "\" >&2; exit 1; }\n" (prepend places "") z2 in
        let e1 = manifest_check-parts s (prepend places "" ⧺ z2) one in
        let e0 = append_assoc (prepend opening "") (prepend manifest "") z1 in
        (root, sh_quote name, quoted_store s.addon_name, quoted-IsWord name, cc);
  }

  -- What discover_all has between the folder's first and second place.
  listing : List String
  listing =
      "/*/; do\n" ∷ "  if [ -f \"$mod/" ∷ sync_manifest ∷ "\" ]; then\n"
      ∷ "    basename \"$mod\" >> \"$MODLIST\"\n" ∷ "  fi\n" ∷ "done\n"
      ∷ "[ -s \"$MODLIST\" ] || { echo \"no Odoo modules found in " ∷ []

  discover_all-parts :
      (src z : String)
      → discover_all src ⧺ z
        ≡ "for mod in " ⧺ src ⧺ prepend listing "" ⧺ src ⧺ "\" >&2; exit 1; }\n" ⧺ z
  unfolding discover_all prepend listing
  discover_all-parts src z =
      let said = src ⧺ "\" >&2; exit 1; }\n" in
      append_assoc "for mod in " (src ⧺ prepend listing said) z
      ∙ ap (λ u. "for mod in " ⧺ u)
          (append_assoc src (prepend listing said) z
            ∙ ap (λ u. src ⧺ u)
                (prepend-append listing said z
                  ∙ ap (prepend listing) (append_assoc src "\" >&2; exit 1; }\n" z)
                  ∙ sym (piece-append listing (src ⧺ "\" >&2; exit 1; }\n" ⧺ z))))

  publish_all-parts :
      (src z : String)
      → publish_all src ⧺ z
        ≡ "while IFS= read -r name; do\n" ⧺ "  publish \"$name\" \"" ⧺ src ⧺ "/$name\"\n"
          ⧺ "done < \"$MODLIST\"\n" ⧺ z
  unfolding publish_all prepend
  publish_all-parts src z =
      prepend-append
        ("while IFS= read -r name; do\n" ∷ "  publish \"$name\" \"" ∷ src ∷ "/$name\"\n" ∷ [])
        "done < \"$MODLIST\"\n" z

  source_folder :
      (s : SyncSpec) → s.single_addon ≡ false → modules_source s ≡ folder_of s.addon_path
  unfolding modules_source
  source_folder s many = elim (Bool-cases (s.addon_path == "")) [
    | inl h ↦ rw many (rw h refl)
    | inr h ↦ rw many (rw h (sym (append_assoc "/tmp/repo" "/" s.addon_path)))
  ]

  pub folder-frame : FolderFrame commit auth
  unfolding discover publish_calls manifest_check
  folder-frame = record {
    start = prepend opening "" ⧺ prepend places "";
    listed = prepend variables "";
    found = prepend listing "";
    staged = "\" >&2; exit 1; }\n" ⧺ prepend staging "" ⧺ "while IFS= read -r name; do\n";
    rest = "done < \"$MODLIST\"\n" ⧺ ending;
    script = λ s many c a.
        let src = folder_of s.addon_path in
        let root = sh_quote (addons_mount_path ⧺ "/" ⧺ sync_releases_dir ⧺ "/" ⧺ s.addon_name) in
        let last =
          "  publish \"$name\" \"" ⧺ src ⧺ "/$name\"\n" ⧺ "done < \"$MODLIST\"\n" ⧺ ending in
        let z3 = prepend staging "" ⧺ publish_all src ⧺ ending in
        let z2 = "RELROOT=" ⧺ root ⧺ "\n" ⧺ prepend variables "" ⧺ discover_all src ⧺ z3 in
        let whole = sync_script-parts s c a in
        let source = source_folder s many in
        let found : discover s ≡ discover_all (modules_source s) = rw many refl in
        let calls : publish_calls s ≡ publish_all (modules_source s) = rw many refl in
        let unchecked : manifest_check s ≡ "" = rw many refl in
        let e5 = publish_all-parts src ending in
        let e4 =
          append_assoc "\" >&2; exit 1; }\n" (prepend staging "" ⧺ "while IFS= read -r name; do\n")
            last in
        let e3 = append_assoc (prepend staging "") "while IFS= read -r name; do\n" last in
        let e2 = discover_all-parts src z3 in
        let e1 = nil-append (prepend places "" ⧺ z2) in
        let e0 = append_assoc (prepend opening "") (prepend places "") z2 in
        (root, quoted_store s.addon_name, cc);
  }

pub cleanup-frame : CleanupFrame
unfolding build_cleanup_script prepend
cleanup-frame =
    let opening = "set -e\n" ∷ "set +x\n" ∷ "ADDONS=" ∷ addons_mount_path ∷ "\n" ∷ [] in
    record {
      start = prepend opening "";
      rest =
          "if [ -d \"$ADDONS\" ]; then\n"
          ⧺ "  find \"$ADDONS\" -mindepth 1 -maxdepth 1 -type l | while IFS= read -r link; do\n"
          ⧺ "    case \"$(readlink \"$link\")\" in\n" ⧺ "      \"$RELROOT/\"*) rm -f \"$link\" ;;\n"
          ⧺ "    esac\n" ⧺ "  done\n" ⧺ "fi\n" ⧺ "rm -rf \"$RELROOT\"\n";
      script = λ name. (
        sh_quote (addons_mount_path ⧺ "/" ⧺ sync_releases_dir ⧺ "/" ⧺ name),
        quoted_store name,
        sym (piece-append opening _),
      );
    }
