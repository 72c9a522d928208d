-- ===== src/WebUi/Shell.antt =====
-- What handler.go answers for files, for routes of the user interface and for missing assets.
use spinup.Prelude.{◌≡◌, ◌≢◌, ◌⊎◌, String, true, false, some}
use spinup.Text.{has_prefix}
use spinup.WebUi.{FileSystem, Answer, not_found, served, immutable, no_cache, file_name, is_asset}

-- An asset that is not there, a file that is there, or the shell in place of a route.
abbrev pub IsAnswer : FileSystem → String → Answer → Type 0
IsAnswer stat path not_found = (stat (file_name path) ≡ false) × (is_asset path ≡ true)
IsAnswer stat path (served shown cached) =
    ((shown ≡ path)
      × (stat (file_name path) ≡ true)
      × ((has_prefix path "/_app/immutable/" ≡ true) ⊎ (cached ≢ some immutable)))
    ⊎ ((shown ≡ "/")
        × (cached ≡ some no_cache)
        × (stat (file_name path) ≡ false)
        × (is_asset path ≡ false))
