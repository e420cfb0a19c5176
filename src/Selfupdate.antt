-- ===== src/Selfupdate.antt =====
-- src/selfupdate.cpp: `check_and_apply`.
use haiku_mgmt_agent.Prelude.{
  ◌-◌, ◌≡◌, refl, arith, Bool, true, false, not, ◌&&◌, ◌||◌, Option, none, some, List, [], ◌∷◌,
  ◌++◌, if◌then◌else◌, length, drop, ltb,
}
use haiku_mgmt_agent.Prelude.Int.{ℤ, pos, eqb_ℤ, leb_ℤ}
use haiku_mgmt_agent.Prelude.Text.{Bytes, codes, bytes_eq, bytes_eq_iff}
use haiku_mgmt_agent.Util.Text.{trim, lower, split}
use haiku_mgmt_agent.Util.Version.{version_compare}
use haiku_mgmt_agent.Json.Value.{Doubles, is_obj, str_at}
use haiku_mgmt_agent.Json.Parser.{parse}
use haiku_mgmt_agent.Json.Errors.{error_of, value_of}
use haiku_mgmt_agent.Prelude.Text.{is_empty}

pub record Manifest : Type 0 where
  pub version : Bytes
  pub sha256 : Bytes
  pub url : Bytes

pub data Outcome : Type 0 where
  up_to_date updated error : Outcome

-- What is done to the system, in order.
pub data Effect : Type 0 where
  downloaded : (url artifact : Bytes) → Effect
  unlinked : (path : Bytes) → Effect
  installed_package : (artifact : Bytes) → Effect
  copied : (from to : Bytes) → Effect
  renamed : (from to : Bytes) → (ok : Bool) → Effect
  made_executable : (path : Bytes) → Effect

-- The surroundings: the text of the manifest, none where it cannot be fetched; whether a download
-- succeeds; the digest of the file that it leaves; the exit codes of pkgman and of the copy; and whether
-- each of the renames succeeds.
pub record System : Type 0 where
  pub manifest_text : Option Bytes
  pub download : Bytes → Bool
  pub sha256_file_hex : Bytes → Bytes
  pub pkgman : Bytes → ℤ
  pub copy : Bytes → ℤ
  pub stage_rename : Bool
  pub swap_rename : Bool
  pub backup_rename : Bool
  pub restore_rename : Bool

-- The part of `fetch_manifest` behind the transfer.
unfoldable pub read_manifest : Doubles → Bytes → Option Manifest
read_manifest fp body =
    let v = value_of (parse fp body) in
    let m : Manifest = record {
      version = str_at v (codes "version");
      sha256 = lower (trim (str_at v (codes "sha256")));
      url = str_at v (codes "url");
    } in
    if not (is_empty (error_of (parse fp body))) || not (is_obj v)
    then none
    else if is_empty m.version || (is_empty m.sha256 || is_empty m.url)
    then none
    else some m

abbrev pub last_part : List Bytes → Bytes
last_part [] = []
last_part (p ∷ []) = p
last_part (p ∷ q ∷ ps) = last_part (q ∷ ps)

-- What stands behind the last slash of the url, in the working directory.
unfoldable pub artifact_of : Bytes → Bytes
artifact_of url = codes "/tmp/haiku-mgmt-agent-update/" ++ last_part (split url b'/')

-- The name ends in ".hpkg" and is longer than that.
unfoldable pub is_hpkg : Bytes → Bool
is_hpkg artifact =
    ltb 5 (length artifact) && bytes_eq (drop (length artifact - 5) artifact) (codes ".hpkg")

module _ (fp : Doubles) (strtol : Bytes → ℤ) (system : System)
    (current_version binary_path : Bytes) where
  unfoldable pub install_package : Bytes → Outcome × List Effect
  install_package artifact =
      if eqb_ℤ (system.pkgman artifact) (pos 0)
      then (updated, installed_package artifact ∷ unlinked artifact ∷ [])
      else (error, installed_package artifact ∷ [])

  -- The swap of the executable once the new one stands beside it.
  unfoldable pub swap_in : Bytes → Bytes → Outcome × List Effect
  swap_in fresh artifact =
      let old = binary_path ++ codes ".old" in
      if system.swap_rename
      then (
        updated,
        renamed binary_path old system.backup_rename
            ∷ renamed fresh binary_path true
            ∷ unlinked artifact
            ∷ [],
      )
      else (
        error,
        renamed binary_path old system.backup_rename
            ∷ renamed fresh binary_path false
            ∷ renamed old binary_path system.restore_rename
            ∷ [],
      )

  unfoldable pub install_binary : Bytes → Outcome × List Effect
  install_binary artifact =
      let fresh = binary_path ++ codes ".new" in
      let swapped = swap_in fresh artifact in
      if system.stage_rename
      then (swapped.0, renamed artifact fresh true ∷ made_executable fresh ∷ swapped.1)
      else if eqb_ℤ (system.copy artifact) (pos 0)
      then (
        swapped.0,
        renamed artifact fresh false ∷ copied artifact fresh ∷ made_executable fresh ∷ swapped.1,
      )
      else (error, renamed artifact fresh false ∷ copied artifact fresh ∷ [])

  unfoldable pub apply_manifest : Manifest → Outcome × List Effect
  apply_manifest m =
      let artifact = artifact_of m.url in
      let applied =
        if is_hpkg artifact then install_package artifact else install_binary artifact in
      if leb_ℤ (version_compare strtol m.version current_version) (pos 0)
      then (up_to_date, [])
      else if not (system.download m.url)
      then (error, downloaded m.url artifact ∷ [])
      else if not (bytes_eq (system.sha256_file_hex artifact) m.sha256)
      then (error, downloaded m.url artifact ∷ unlinked artifact ∷ [])
      else (applied.0, downloaded m.url artifact ∷ applied.1)

  unfoldable pub apply_read : Option Manifest → Outcome × List Effect
  apply_read none = (error, [])
  apply_read (some m) = apply_manifest m

  unfoldable pub apply_text : Option Bytes → Outcome × List Effect
  apply_text none = (error, [])
  apply_text (some body) = apply_read (read_manifest fp body)

  unfoldable pub check_and_apply : Outcome × List Effect
  check_and_apply = apply_text system.manifest_text

-- An effect that changes what is installed.
abbrev pub installs : List Effect → Bool
installs [] = false
installs (downloaded url artifact ∷ es) = installs es
installs (unlinked path ∷ es) = installs es
installs (_ ∷ es) = true

apply_checked :
    (fp : Doubles) (strtol : Bytes → ℤ) (system : System) (current_version binary_path : Bytes)
    (m : Manifest)
    → installs (apply_manifest fp strtol system current_version binary_path m).1 ≡ true
    → (leb_ℤ (version_compare strtol m.version current_version) (pos 0) ≡ false)
      × (system.sha256_file_hex (artifact_of m.url) ≡ m.sha256)
unfolding apply_manifest
apply_checked fp strtol system current_version binary_path m h = (
  ground (arith, h),
  (bytes_eq_iff (system.sha256_file_hex (artifact_of m.url)) m.sha256).0 (ground (arith, h)),
)

abbrev pub IsNewer : (Bytes → ℤ) → Bytes → Manifest → Type 0
IsNewer strtol current m = leb_ℤ (version_compare strtol m.version current) (pos 0) ≡ false

abbrev pub HasDigest : System → Manifest → Type 0
HasDigest system m = system.sha256_file_hex (artifact_of m.url) ≡ m.sha256

read_checked :
    (fp : Doubles) (strtol : Bytes → ℤ) (system : System) (current_version binary_path : Bytes)
    (o : Option Manifest)
    → installs (apply_read fp strtol system current_version binary_path o).1 ≡ true
    → (m : Manifest) × ((o ≡ some m) × (IsNewer strtol current_version m × HasDigest system m))
unfolding apply_read
read_checked fp strtol system current_version binary_path none h = absurd (ground (arith, h))
read_checked fp strtol system current_version binary_path (some m) h =
    (m, (refl, apply_checked fp strtol system current_version binary_path m h))

text_checked :
    (fp : Doubles) (strtol : Bytes → ℤ) (system : System) (current_version binary_path : Bytes)
    (o : Option Bytes)
    → installs (apply_text fp strtol system current_version binary_path o).1 ≡ true
    → (body : Bytes) × ((m : Manifest) × ((o ≡ some body)
          × ((read_manifest fp body ≡ some m)
              × (IsNewer strtol current_version m × HasDigest system m))))
unfolding apply_text
text_checked fp strtol system current_version binary_path none h = absurd (ground (arith, h))
text_checked fp strtol system current_version binary_path (some body) h =
    let found =
      read_checked fp strtol system current_version binary_path (read_manifest fp body) h in
    (body, (found.0, (refl, (found.1.0, found.1.1))))

-- The installed software is changed only by a manifest that was read, whose version is newer than the
-- running one, and whose digest is that of the file that was downloaded.
pub installs_checked :
    (fp : Doubles) (strtol : Bytes → ℤ) (system : System) (current_version binary_path : Bytes)
    → installs (check_and_apply fp strtol system current_version binary_path).1 ≡ true
    → (body : Bytes) × ((m : Manifest) × ((system.manifest_text ≡ some body)
          × ((read_manifest fp body ≡ some m)
              × (IsNewer strtol current_version m × HasDigest system m))))
unfolding check_and_apply
installs_checked fp strtol system current_version binary_path h =
    text_checked fp strtol system current_version binary_path system.manifest_text h
