-- ===== src/Bundles.antt =====
-- The bundles of the client program: the statements on wg_bundles of internal/wg/store.go, and
-- `normWGOS`, `normWGArch`, the upload and the two downloads of internal/wg/bundle_assets.go and
-- internal/wg/bundle_handlers.go. The bytes are the asset service's: a bundle has the id of its asset.
pub mod Unique
pub mod Latest
pub mod Marks
pub mod Uploads
pub mod Lookup
use Prim.Native.Char.{code}
use polar_wg.Errors.{
  bundles_latest_platform, bundles_version_platform, bundle_exists, no_asset, bundles_sha,
  no_bundle, violates, bundle_empty, bundle_incomplete, version_required, no_latest_bundle, err,
  no_rows, or_fail, ok, require, Result, ◌>>=◌, ◌>>◌,
}
use polar_wg.Store.Views.{backwards}
use polar_wg.Base.{
  order_by, suc, [], ◌∷◌, ◌++◌, is_some, is_digit, select, none, any, itoa, ltb, ◌||◌, not, some,
  ◌==◌, is_empty, trim, to_lower, leb, ◌&&◌, append, find, update_where, str_eq, String, false,
  true, Bool, trim_space, Option, List, ℕ, if◌then◌else◌,
}

-- WGBundle, with the column asset_id.
pub record Bundle : Type 0 where
  pub id : ℕ
  pub version : String
  pub os : String
  pub arch : String
  pub blob_uri : String
  pub blob_sha256 : String
  pub size_bytes : ℕ
  pub is_latest : Bool
  pub notes : String
  pub added_at : ℕ
  pub added_by_user_id : String
  pub asset_id : Option ℕ

-- The table wg_bundles and the next value of its BIGSERIAL.
pub record Catalog : Type 0 where
  pub bundles : List Bundle
  pub next_bundle : ℕ

unfoldable pub get_bundle_by_id : Catalog → ℕ → Option Bundle
get_bundle_by_id k id = find (λ b. b.id == id) k.bundles

unfoldable pub get_bundle_by_sha : Catalog → String → Option Bundle
get_bundle_by_sha k sha = find (λ b. str_eq b.blob_sha256 sha) k.bundles

abbrev pub or_darwin : String → String
or_darwin os = if is_empty (trim_space os) then "darwin" else os

abbrev pub first_of_two : Option Bundle → Option Bundle → Option Bundle
first_of_two (some b) o = some b
first_of_two none o = o

-- WHERE p AND (arch = $3 OR arch = '') ORDER BY (arch = $3) DESC LIMIT 1
unfoldable pub for_arch : (Bundle → Bool) → String → List Bundle → Option Bundle
for_arch p arch bundles =
    first_of_two (find (λ b. p b && str_eq b.arch arch) bundles)
      (find (λ b. p b && is_empty b.arch) bundles)

-- getWGBundleForVersion
unfoldable pub get_bundle_for_version : Catalog → String → String → String → Option Bundle
get_bundle_for_version k version os arch =
    for_arch (λ b. str_eq b.version version && str_eq b.os (or_darwin os)) arch k.bundles

-- getLatestWGBundleFor
unfoldable pub get_latest_bundle_for : Catalog → String → String → Option Bundle
get_latest_bundle_for k os arch =
    for_arch (λ b. b.is_latest && str_eq b.os (or_darwin os)) arch k.bundles

abbrev pub same_platform : String → String → Bundle → Bool
same_platform os arch b = str_eq b.os os && str_eq b.arch arch

abbrev pub same_version : Bundle → Bundle → Bool
same_version c b = str_eq b.version c.version && same_platform c.os c.arch b

-- insertWGBundle, with the unique indexes of the schema.
unfoldable pub insert_bundle : Bundle → Catalog → Result (Catalog × Bundle)
insert_bundle b k = do
  require (not (is_empty (trim_space b.version)) && not (is_empty (trim_space b.blob_sha256)))
      bundle_incomplete
  let row = record b { id = k.next_bundle; os = or_darwin b.os }
  require (not (any (λ (r : Bundle). str_eq r.blob_sha256 b.blob_sha256) k.bundles))
      (violates bundles_sha)
  require (not (any (same_version row) k.bundles)) (violates bundles_version_platform)
  require (not (b.is_latest && any (λ r. r.is_latest && same_platform row.os row.arch r) k.bundles))
      (violates bundles_latest_platform)
  ok (record k { bundles = k.bundles ++ row ∷ []; next_bundle = suc k.next_bundle }, row)

abbrev pub unmark : Bundle → Bundle
unmark b = record b { is_latest = false }

abbrev pub mark : Bundle → Bundle
mark b = record b { is_latest = true }

-- The two UPDATEs of setWGBundleLatest.
unfoldable pub mark_latest : ℕ → String → String → List Bundle → List Bundle
mark_latest id os arch bundles =
    update_where (λ (b : Bundle). b.id == id) mark
      (update_where (λ b. b.is_latest && same_platform os arch b) unmark bundles)

-- setWGBundleLatest
unfoldable pub set_bundle_latest : ℕ → Catalog → Result Catalog
set_bundle_latest id k = do
  b ← or_fail (get_bundle_by_id k id) no_rows
  ok (record k { bundles = mark_latest id b.os b.arch k.bundles })

-- setWGBundleAssetID
unfoldable pub set_bundle_asset_id : ℕ → ℕ → Catalog → Catalog
set_bundle_asset_id id asset k = record k {
  bundles =
      update_where (λ (b : Bundle). b.id == id) (λ b. record b { asset_id = some asset }) k.bundles;
}

-- deleteWGBundle
unfoldable pub delete_bundle : ℕ → Catalog → Result Catalog
delete_bundle id k = do
  require (any (λ (b : Bundle). b.id == id) k.bundles) no_rows
  ok (record k { bundles = select (λ b. not (b.id == id)) k.bundles })

-- listWGBundles: ORDER BY added_at DESC, id DESC
unfoldable pub list_bundles : Catalog → List Bundle
list_bundles k =
    backwards (order_by (λ (b : Bundle). b.added_at) (order_by (λ (b : Bundle). b.id) k.bundles))

-- handleAdminWGBundleSetLatest and handleAdminWGBundleDelete, of an id that is a positive number
abbrev pub bundle_set_latest : ℕ → Catalog → Result Catalog
bundle_set_latest id k = set_bundle_latest id k

unfoldable pub bundle_delete : ℕ → Catalog → Result Catalog
bundle_delete id k = do b ← or_fail (get_bundle_by_id k id) no_rows; delete_bundle id k

abbrev lowered : String → String
lowered s = to_lower (trim_space s)

unfoldable pub norm_os : String → String
norm_os s =
    let t = lowered s in
    if str_eq t "darwin" || (str_eq t "macos" || (str_eq t "mac" || str_eq t "osx"))
    then "darwin"
    else if str_eq t "windows" || str_eq t "win"
    then "windows"
    else t

unfoldable pub norm_arch : String → String
norm_arch s =
    let t = lowered s in
    if str_eq t "x86_64" || (str_eq t "amd64" || str_eq t "x64")
    then "amd64"
    else if str_eq t "arm64" || str_eq t "aarch64"
    then "arm64"
    else t

-- reqOSArch, of the two query parameters.
unfoldable pub req_os_arch : String → String → String × String
req_os_arch os arch = (let o = norm_os os in if is_empty o then "darwin" else o, norm_arch arch)

-- The form of an upload, and what the asset service answers to the bytes.
pub record Upload : Type 0 where
  pub version : String
  pub notes : String
  pub set_latest : Bool
  pub os : String
  pub arch : String
  pub user_id : String
  -- the version of the day, where the form has none
  pub stamp : String
  pub now : ℕ
  pub asset : ℕ
  pub sha256 : String
  pub size : ℕ

abbrev pub uploaded : Upload → Bundle
uploaded u = record {
  id = 0;
  version = let v = trim_space u.version in if is_empty v then u.stamp else v;
  os = (req_os_arch u.os u.arch).0;
  arch = norm_arch u.arch;
  blob_uri = append "asset://" (itoa u.asset);
  blob_sha256 = u.sha256;
  size_bytes = u.size;
  is_latest = false;
  notes = trim_space u.notes;
  added_at = u.now;
  added_by_user_id = u.user_id;
  asset_id = none;
}

abbrev pub if_marked : Catalog → Bundle → Result Catalog → Catalog × Bundle
if_marked k b (ok k') = (k', mark b)
if_marked k b (err e) = (k, b)

-- handleAdminWGBundleUpload, once the bytes are stored: a bundle that cannot be marked is kept.
unfoldable pub upload_bundle : Upload → Catalog → Result (Catalog × Bundle)
upload_bundle u k = do
  require (ltb 0 u.size) bundle_empty
  require (not (is_some (get_bundle_by_sha k u.sha256))) bundle_exists
  at ← insert_bundle (uploaded u) k
  let k2 = set_bundle_asset_id at.1.id u.asset at.0
  ok (if u.set_latest then if_marked k2 at.1 (set_bundle_latest at.1.id k2) else (k2, at.1))

-- handleWGBundleLatest: the place that the request is sent on to.
unfoldable pub latest_redirect : Catalog → String → String → Result String
latest_redirect k os arch = do
  let p = req_os_arch os arch
  b ← or_fail (get_latest_bundle_for k p.0 p.1) no_latest_bundle
  ok (append "/v1/bundle/" (append b.version (append "?os=" (append p.0 (append "&arch=" b.arch)))))

abbrev is_file_char : ℕ → Bool
is_file_char c =
    (leb b'a' c && leb c b'z')
    || ((leb b'A' c && leb c b'Z') || (is_digit c || (c == b'-' || c == b'_')))

abbrev is_dash : ℕ → Bool
is_dash c = c == b'-'

abbrev or_untitled : String → String
or_untitled s = if is_empty s then "untitled" else s

unfoldable pub replace_chars : (ℕ → Bool) → String → String
replace_chars keep String.[] = String.[]
replace_chars keep (String.◌∷◌ c s) =
    let rest = replace_chars keep s in if keep (code c) then String.◌∷◌ c rest else append "-" rest

-- sanitizeFilename
unfoldable pub sanitize_filename : String → String
sanitize_filename s = or_untitled (trim is_dash (replace_chars is_file_char s))

unfoldable pub bundle_filename : Bundle → String
bundle_filename b = append "wg-" (
    append (if is_empty b.arch then b.os else append b.os (append "-" b.arch))
      (append "-" (append (sanitize_filename b.version) ".tar.gz")))

-- handleWGBundleDownload: the asset that is sent, and the name of the file.
unfoldable pub bundle_download : Catalog → String → String → String → Result (ℕ × String)
bundle_download k version os arch = do
  let v = trim_space version
  require (not (is_empty v)) version_required
  let p = req_os_arch os arch
  b ← or_fail (get_bundle_for_version k v p.0 p.1) no_bundle
  asset ← or_fail b.asset_id no_asset
  ok (asset, bundle_filename b)
