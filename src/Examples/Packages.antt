-- ===== src/Examples/Packages.antt =====
-- The theorems on bundles, dumps and operators at sample data.
use polar_wg.Bundles.Lookup.{redirect_serves_latest}
use polar_wg.Api.{equal_fold}
use polar_wg.Auth.Gate.{IsGranted}
use polar_wg.Plugin.Wiring.{operator_needs_grant, IsRouter}
use polar_wg.Plugin.{Registered, Router, admin_hub_delete, dispatch, route_table}
use polar_wg.Bundles.Uploads.{upload_bundle-IsCatalog}
use polar_wg.Dump.Print.{parse_wg_show_dump-printed, head_line, lines_text, Head, IsHead}
use polar_wg.Bundles.Unique.{IsCatalog}
use polar_wg.Bundles.Latest.{set_bundle_latest-put, put, latest_in}
use polar_wg.Dump.{unless, int_or_zero, parse_wg_show_dump}
use polar_wg.Auth.{drop_chars, access_token, Dock, require_admin, Credentials, Identity}
use polar_wg.Dump.Readback.{sample_of, row_line, IsRow, Row}
use polar_wg.Bundles.{
  get_bundle_for_version, get_latest_bundle_for, for_arch, Catalog, Upload, Bundle, upload_bundle,
  set_bundle_latest, set_bundle_asset_id, req_os_arch, norm_os, norm_arch, mark_latest,
  insert_bundle, get_bundle_by_sha, get_bundle_by_id,
}
use polar_wg.Base.{
  ◌&&◌, find, find-All, prefix, [], some, ◌∷◌, none, true, arith, Bool, str_eq, false, ◌≡◌, ℕ,
  String, trim_space, trim_right, trim_left, to_lower, lower_char, itoa, is_space, char_at,
  if◌then◌else◌, refl,
}
use polar_wg.Errors.{ok}

abbrev bundle : ℕ → String → String → Bool → Bundle
bundle id version sha latest = record {
  id = id;
  version = version;
  os = "darwin";
  arch = "arm64";
  blob_uri = "asset://7";
  blob_sha256 = sha;
  size_bytes = 10;
  is_latest = latest;
  notes = "";
  added_at = 5;
  added_by_user_id = "u";
  asset_id = some 7;
}

abbrev catalog : Catalog
catalog = record {
  bundles = bundle 1 "1.0" "aa" true ∷ bundle 2 "1.1" "bb" false ∷ [];
  next_bundle = 3;
}

catalog-IsCatalog : IsCatalog catalog
catalog-IsCatalog = record {
  apart = (
    (record { ids = λ same. omega (arith, same); shas = refl; versions = refl; latest = refl }, tt),
    (tt, tt),
  );
  fresh = (omega arith, (omega arith, tt));
}

abbrev moved : Catalog
moved = record catalog { bundles = bundle 1 "1.0" "aa" false ∷ bundle 2 "1.1" "bb" true ∷ [] }

second_row : get_bundle_by_id catalog 2 ≡ some (bundle 2 "1.1" "bb" false)
unfolding get_bundle_by_id
second_row = refl

moved_mark : set_bundle_latest 2 catalog ≡ ok moved
unfolding set_bundle_latest get_bundle_by_id mark_latest
moved_mark = refl

set_bundle_latest-put_example :
    latest_in moved.bundles "darwin" "arm64"
    ≡ put "darwin" "arm64" 2 (latest_in catalog.bundles) "darwin" "arm64"
set_bundle_latest-put_example =
    set_bundle_latest-put 2 catalog moved (bundle 2 "1.1" "bb" false) "darwin" "arm64"
      catalog-IsCatalog second_row moved_mark

abbrev form : Upload
form = record {
  version = " 1.2 ";
  notes = "";
  set_latest = true;
  os = "macOS";
  arch = "aarch64";
  user_id = "u";
  stamp = "2025-01-01";
  now = 6;
  asset = 9;
  sha256 = "cc";
  size = 10;
}

abbrev row_3 : Bundle
row_3 = record (bundle 3 "1.2" "cc" true) { blob_uri = "asset://9"; added_at = 6; asset_id = none }

abbrev stored : Catalog × Bundle
stored = (
  record {
    bundles =
        bundle 1 "1.0" "aa" false
        ∷ bundle 2 "1.1" "bb" false
        ∷ record row_3 { asset_id = some 9 }
        ∷ [];
    next_bundle = 4;
  },
  row_3,
)

uploaded_form : upload_bundle form catalog ≡ ok stored
unfolding upload_bundle get_bundle_by_sha insert_bundle set_bundle_asset_id set_bundle_latest
    get_bundle_by_id mark_latest req_os_arch norm_os norm_arch trim_space trim_right trim_left
    is_space to_lower lower_char char_at itoa
uploaded_form = refl

upload_bundle-IsCatalog_example : IsCatalog stored.0
upload_bundle-IsCatalog_example =
    upload_bundle-IsCatalog form catalog stored catalog-IsCatalog uploaded_form

abbrev head : Head
head = record { private_key = "priv"; public_key = "hubkey"; listen_port = "51820"; fwmark = "off" }

abbrev spoke : Row
spoke = record {
  public_key = "laptopkey";
  preshared_key = "(none)";
  endpoint = "198.51.100.4:51820";
  allowed_ips = "100.64.0.2/32";
  handshake = "15";
  rx = "1024";
  tx = "2048";
  keepalive = "25";
}

head-IsHead : IsHead head
unfolding is_space
head-IsHead = record {
  private_key = (refl, refl);
  public_key = (refl, refl);
  listen_port = (refl, refl);
  fwmark = (refl, refl);
}

spoke-IsRow : IsRow spoke
unfolding is_space
spoke-IsRow = record {
  public_key = (refl, refl);
  preshared_key = (refl, refl);
  endpoint = (refl, refl);
  allowed_ips = (refl, refl);
  handshake = (refl, refl);
  rx = (refl, refl);
  tx = (refl, refl);
  keepalive = (refl, refl);
}

parse_wg_show_dump-printed_example :
    parse_wg_show_dump 20 "wg0" (lines_text (head_line head ∷ row_line spoke ∷ []))
    ≡ ok record {
      iface = "wg0";
      iface_public_key = "hubkey";
      listen_port = int_or_zero "51820";
      fwmark = unless "off" "off";
      peers = sample_of 20 spoke ∷ [];
    }
parse_wg_show_dump-printed_example =
    parse_wg_show_dump-printed 20 "wg0" head (spoke ∷ []) head-IsHead (spoke-IsRow, tt)

abbrev operator : Identity
operator = record { user_id = "u"; role = "Admin"; workspace_id = "ws" }

abbrev dock : Dock
dock = record {
  verify = λ token ws. if str_eq token "t" then some operator else none;
  access = λ ws. some true;
}

abbrev sent : Credentials
sent = record { authorization = "Bearer t"; query = ""; cookie = none; workspace = "ws" }

-- The first route with the method and the path.
abbrev first_route : Router
first_route table verb path =
    find (λ (r : Registered). str_eq r.verb verb && str_eq r.path path) table

first_route-IsRouter : IsRouter first_route
first_route-IsRouter p table all verb path r e =
    find-All (λ (r : Registered). p r ≡ true)
      (λ (r : Registered). str_eq r.verb verb && str_eq r.path path) table r all e

hub_deletion :
    dispatch first_route dock sent "DELETE" "/api/admin/wg-hubs/:id" ≡ ok admin_hub_delete
unfolding dispatch route_table require_admin access_token drop_chars trim_space trim_right trim_left
    is_space to_lower lower_char prefix equal_fold char_at
hub_deletion = refl

operator_needs_grant_example : (who : Identity) × IsGranted dock sent who
operator_needs_grant_example =
    operator_needs_grant first_route dock sent "DELETE" "/api/admin/wg-hubs/:id" admin_hub_delete
      first_route-IsRouter hub_deletion refl

redirected : get_latest_bundle_for catalog "darwin" "arm64" ≡ some (bundle 1 "1.0" "aa" true)
unfolding get_latest_bundle_for for_arch trim_space trim_right trim_left is_space
redirected = refl

redirect_serves_latest_example :
    get_bundle_for_version catalog "1.0" "darwin" "arm64" ≡ some (bundle 1 "1.0" "aa" true)
redirect_serves_latest_example =
    redirect_serves_latest catalog "darwin" "arm64" (bundle 1 "1.0" "aa" true) catalog-IsCatalog
      redirected
