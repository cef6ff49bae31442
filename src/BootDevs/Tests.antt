-- ===== src/BootDevs/Tests.antt =====
-- A boot device at its place in the table.
use cobalt_rom.Prelude.{◌≡◌, some, [], ◌∷◌, arith}
use cobalt_rom.BootDevs.{find_dev_by_name, find_dev_by_num}
use cobalt_rom.BootDevs.Table.{BootDev}
use cobalt_rom.BootDevs.Found.{find_dev_lem}

-- "md1", 9:1
abbrev md1 : BootDev
md1 = record { name = 109 ∷ 100 ∷ 49 ∷ []; maj = 9; min = 1 }

find_dev_example : (find_dev_by_name (md1.name) ≡ some md1) × (find_dev_by_num 2305 ≡ some md1)
find_dev_example = find_dev_lem 211 md1 (omega arith)
