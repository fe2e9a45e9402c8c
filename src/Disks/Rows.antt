-- ===== src/Disks/Rows.antt =====
-- src/main/c/paisa-fleet/FindFullDisks.c, `onCsvRow`: the devices from the rows of the list.
use unspecified_garbage.Common.{
  ℕ, ◌+◌, true, List, [], ◌∷◌, ◌++◌, leb, if◌then◌else◌, Bytes, length,
}
use unspecified_garbage.Disks.State.{Output, App}

-- `sizeof DEVICE->eddieName` and `sizeof DEVICE->hostname`
abbrev pub eddie_name_cap : ℕ
eddie_name_cap = 16

abbrev pub hostname_cap : ℕ
hostname_cap = 27

-- More room where there is none for another device.
abbrev pub with_room : App → App
with_room app =
    if leb app.devices_cap (length app.devices)
    then record app { devices_cap = app.devices_cap + 4096 }
    else app

abbrev fail : App → App
fail app = record app { has_failed = true }

-- A row of two columns, in the order of the file. `stdoutBuf_len` is not set, so it is what the memory from `realloc`
-- holds.
unfoldable pub add_device : Output → App → Bytes → Bytes → App
add_device memory app eddie host =
    if leb eddie_name_cap (length eddie)
    then fail app
    else if leb hostname_cap (length host)
    then fail app
    else record app {
      devices =
          app.devices ++ (record { hostname = host; eddie_name = eddie; stdout = memory } ∷ []);
    }

-- The columns, where the program has not failed before.
unfoldable pub on_columns : Output → App → List Bytes → App
unfolding add_device
on_columns memory app (eddie ∷ host ∷ []) = add_device memory (with_room app) eddie host
on_columns memory app row = fail app

-- Given is what the memory for the next device holds.
unfoldable pub on_csv_row : Output → App → List Bytes → App
unfolding on_columns
on_csv_row memory app row = if app.has_failed then app else on_columns memory app row
