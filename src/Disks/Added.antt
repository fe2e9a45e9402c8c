-- ===== src/Disks/Added.antt =====
-- src/main/c/paisa-fleet/FindFullDisks.c: what a row of the list changes.
use unspecified_garbage.Common.{
  ℕ, ◌+◌, ◌≤◌, ◌<◌, ◌≡◌, ◌⊎◌, inl, inr, refl, sym, ap, arith, true, false, List, [], ◌∷◌, ◌++◌, leb,
  if◌then◌else◌, Bytes, length, Bool-cases,
}
use mathlib.Core.Path.{subst}
use unspecified_garbage.Disks.State.{Device, Output, App}
use unspecified_garbage.Disks.Rows.{
  eddie_name_cap, hostname_cap, with_room, add_device, on_columns, on_csv_row,
}

abbrev pub device_of : Output → Bytes → Bytes → Device
device_of memory eddie host = record { hostname = host; eddie_name = eddie; stdout = memory }

-- No device is added, and the program has failed.
abbrev pub Refused : App → App → Type 0
Refused a b = (c : ℕ) × (b ≡ record a { devices_cap = c; has_failed = true }) × (a.devices_cap ≤ c)

-- The device of a row is added.
pub record Added (memory : Output) (a : App) (columns : List Bytes) (b : App) : Type 0 where
  pub eddie : Bytes
  pub host : Bytes
  pub cap : ℕ
  pub columns_eq : columns ≡ eddie ∷ host ∷ []
  pub grown :
      b ≡ record a { devices = a.devices ++ (device_of memory eddie host ∷ []); devices_cap = cap }
  pub enough : length a.devices + 1 ≤ cap
  pub eddie_fits : length eddie < eddie_name_cap
  pub host_fits : length host < hostname_cap

add_device-cases :
    (memory : Output) (a : App) (c : ℕ) (eddie host : Bytes)
    → a.devices_cap ≤ c
    → length a.devices + 1 ≤ c
    → Refused a (add_device memory (record a { devices_cap = c }) eddie host)
      ⊎ Added memory a
          (eddie ∷ host ∷ [])
          (add_device memory (record a { devices_cap = c }) eddie host)
unfolding add_device
add_device-cases memory a c eddie host h l = elim (Bool-cases (leb eddie_name_cap (length eddie))) [
  | inl e ↦ rw e (inl (c, refl, h))
  | inr e ↦ elim (Bool-cases (leb hostname_cap (length host))) [
    | inl f ↦ rw (e, f) (inl (c, refl, h))
    | inr f ↦
        rw (e, f)
          (inr (record {
            eddie = eddie;
            host = host;
            cap = c;
            columns_eq = refl;
            grown = refl;
            enough = l;
            eddie_fits = ground arith;
            host_fits = ground arith;
          }))
  ]
]

with_room-eq :
    (a : App)
    → length a.devices ≤ a.devices_cap
    → (c : ℕ) × (with_room a ≡ record a { devices_cap = c })
      × (a.devices_cap ≤ c)
      × (length a.devices + 1 ≤ c)
with_room-eq a h = elim (Bool-cases (leb a.devices_cap (length a.devices))) [
  | inl e ↦ (a.devices_cap + 4096, rw e refl, omega arith, omega arith)
  | inr e ↦ (a.devices_cap, rw e refl, omega arith, ground arith)
]

on_columns-cases :
    (memory : Output) (a : App) (columns : List Bytes)
    → length a.devices ≤ a.devices_cap
    → Refused a (on_columns memory a columns) ⊎ Added memory a columns (on_columns memory a columns)
unfolding on_columns
on_columns-cases memory a [] h = inl (a.devices_cap, refl, omega arith)
on_columns-cases memory a (eddie ∷ []) h = inl (a.devices_cap, refl, omega arith)
on_columns-cases memory a (eddie ∷ host ∷ []) h =
    let (c, e, g, l) = with_room-eq a h in rw e (add_device-cases memory a c eddie host g l)
on_columns-cases memory a (eddie ∷ host ∷ x ∷ xs) h = inl (a.devices_cap, refl, omega arith)

module _ (memory : Output) (a : App) (columns : List Bytes) where
  on_csv_row-failed :
      a.has_failed ≡ true → on_csv_row memory a columns ≡ record a { has_failed = true }
  unfolding on_csv_row
  on_csv_row-failed e =
      ap (λ f. if f then record a { has_failed = f } else on_columns memory a columns) e

  on_csv_row-works :
      a.has_failed ≡ false → on_csv_row memory a columns ≡ on_columns memory a columns
  unfolding on_csv_row
  on_csv_row-works e = ap (λ f. if f then a else on_columns memory a columns) e

  -- A row does nothing after a failure; otherwise it adds its device, or the program fails.
  pub on_csv_row-cases :
      length a.devices ≤ a.devices_cap
      → Refused a (on_csv_row memory a columns)
        ⊎ ((a.has_failed ≡ false) × Added memory a columns (on_csv_row memory a columns))
  on_csv_row-cases h = elim (Bool-cases a.has_failed) [
    | inl e ↦ inl (a.devices_cap, on_csv_row-failed e, omega arith)
    | inr e ↦
        subst (λ b. Refused a b ⊎ ((a.has_failed ≡ false) × Added memory a columns b))
          (sym (on_csv_row-works e))
          (elim (on_columns-cases memory a columns h) [ inl r ↦ inl r | inr r ↦ inr (e, r) ])
  ]
