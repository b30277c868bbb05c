-- ===== src/Models/DeviceModel/Examples.antt =====
-- A snapshot with two devices of one IP.
use with_boost.Common.{ℕ, ◌≡◌, List, [], ◌∷◌, ◌++◌, Text, codes, length, arith}
use with_boost.Domain.Device.{DeviceIntegrated, new_device}
use with_boost.Models.DeviceModel.{DeviceModel, on_store_updated}
use with_boost.Models.DeviceModel.Rows.{Names, old_rows, new_rows, on_store_updated-rows}

abbrev at : Text → DeviceIntegrated ℕ
at ip = new_device 0 ip

abbrev one_row : DeviceModel ℕ
one_row = record { devices = at (codes "10.0.0.5") ∷ []; by_ip = (codes "10.0.0.5", 0) ∷ [] }

abbrev two_of_one : List (DeviceIntegrated ℕ)
two_of_one = at (codes "10.0.0.6") ∷ at (codes "10.0.0.5") ∷ at (codes "10.0.0.6") ∷ []

on_store_updated-rows_example :
    let m' = (on_store_updated (λ t. t) two_of_one one_row).0 in
    (m'.devices
      ≡ old_rows (λ t. t) one_row.by_ip two_of_one one_row.devices
        ++ new_rows (λ t. t) one_row.by_ip two_of_one)
    × Names (length m'.devices) m'.by_ip
on_store_updated-rows_example = on_store_updated-rows (λ t. t) two_of_one one_row (omega arith, tt)
