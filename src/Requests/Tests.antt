-- ===== src/Requests/Tests.antt =====
-- A header that names a path, and one that names a file.
use charge_api.Prelude.{◌≡◌, true, some}
use charge_api.Requests.Filename.{
  week, is_plain_name, download_filename, download_filename-is_plain_name,
}

download_filename-is_plain_name_example :
    is_plain_name (download_filename (some "attachment; filename=../../trends.csv") week) ≡ true
download_filename-is_plain_name_example =
    download_filename-is_plain_name (some "attachment; filename=../../trends.csv") week
