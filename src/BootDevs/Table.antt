-- ===== src/BootDevs/Table.antt =====
-- The table of boot devices in x86/common/bootdevs.c, without its last entry, which marks the end.
use cobalt_rom.Prelude.{ℕ, min, List, [], ◌∷◌}

pub record BootDev : Type 0 where
  pub name : List ℕ
  pub maj : ℕ
  pub min : ℕ

abbrev dev : List ℕ → ℕ → ℕ → BootDev
dev name maj min = record { name = name; maj = maj; min = min }

abbrev pub hd_devs : List BootDev
hd_devs =
    dev (104 ∷ 100 ∷ 97 ∷ 49 ∷ []) 3 1
    ∷ dev (104 ∷ 100 ∷ 97 ∷ 50 ∷ []) 3 2
    ∷ dev (104 ∷ 100 ∷ 97 ∷ 51 ∷ []) 3 3
    ∷ dev (104 ∷ 100 ∷ 97 ∷ 52 ∷ []) 3 4
    ∷ dev (104 ∷ 100 ∷ 97 ∷ 53 ∷ []) 3 5
    ∷ dev (104 ∷ 100 ∷ 97 ∷ 54 ∷ []) 3 6
    ∷ dev (104 ∷ 100 ∷ 97 ∷ 55 ∷ []) 3 7
    ∷ dev (104 ∷ 100 ∷ 97 ∷ 56 ∷ []) 3 8
    ∷ dev (104 ∷ 100 ∷ 98 ∷ 49 ∷ []) 3 65
    ∷ dev (104 ∷ 100 ∷ 98 ∷ 50 ∷ []) 3 66
    ∷ dev (104 ∷ 100 ∷ 98 ∷ 51 ∷ []) 3 67
    ∷ dev (104 ∷ 100 ∷ 98 ∷ 52 ∷ []) 3 68
    ∷ dev (104 ∷ 100 ∷ 98 ∷ 53 ∷ []) 3 69
    ∷ dev (104 ∷ 100 ∷ 98 ∷ 54 ∷ []) 3 70
    ∷ dev (104 ∷ 100 ∷ 98 ∷ 55 ∷ []) 3 71
    ∷ dev (104 ∷ 100 ∷ 98 ∷ 56 ∷ []) 3 72
    ∷ dev (104 ∷ 100 ∷ 99 ∷ 49 ∷ []) 22 1
    ∷ dev (104 ∷ 100 ∷ 99 ∷ 50 ∷ []) 22 2
    ∷ dev (104 ∷ 100 ∷ 99 ∷ 51 ∷ []) 22 3
    ∷ dev (104 ∷ 100 ∷ 99 ∷ 52 ∷ []) 22 4
    ∷ dev (104 ∷ 100 ∷ 99 ∷ 53 ∷ []) 22 5
    ∷ dev (104 ∷ 100 ∷ 99 ∷ 54 ∷ []) 22 6
    ∷ dev (104 ∷ 100 ∷ 99 ∷ 55 ∷ []) 22 7
    ∷ dev (104 ∷ 100 ∷ 99 ∷ 56 ∷ []) 22 8
    ∷ dev (104 ∷ 100 ∷ 100 ∷ 49 ∷ []) 22 65
    ∷ dev (104 ∷ 100 ∷ 100 ∷ 50 ∷ []) 22 66
    ∷ dev (104 ∷ 100 ∷ 100 ∷ 51 ∷ []) 22 67
    ∷ dev (104 ∷ 100 ∷ 100 ∷ 52 ∷ []) 22 68
    ∷ dev (104 ∷ 100 ∷ 100 ∷ 53 ∷ []) 22 69
    ∷ dev (104 ∷ 100 ∷ 100 ∷ 54 ∷ []) 22 70
    ∷ dev (104 ∷ 100 ∷ 100 ∷ 55 ∷ []) 22 71
    ∷ dev (104 ∷ 100 ∷ 100 ∷ 56 ∷ []) 22 72
    ∷ dev (104 ∷ 100 ∷ 101 ∷ 49 ∷ []) 33 1
    ∷ dev (104 ∷ 100 ∷ 101 ∷ 50 ∷ []) 33 2
    ∷ dev (104 ∷ 100 ∷ 101 ∷ 51 ∷ []) 33 3
    ∷ dev (104 ∷ 100 ∷ 101 ∷ 52 ∷ []) 33 4
    ∷ dev (104 ∷ 100 ∷ 101 ∷ 53 ∷ []) 33 5
    ∷ dev (104 ∷ 100 ∷ 101 ∷ 54 ∷ []) 33 6
    ∷ dev (104 ∷ 100 ∷ 101 ∷ 55 ∷ []) 33 7
    ∷ dev (104 ∷ 100 ∷ 101 ∷ 56 ∷ []) 33 8
    ∷ dev (104 ∷ 100 ∷ 102 ∷ 49 ∷ []) 33 65
    ∷ dev (104 ∷ 100 ∷ 102 ∷ 50 ∷ []) 33 66
    ∷ dev (104 ∷ 100 ∷ 102 ∷ 51 ∷ []) 33 67
    ∷ dev (104 ∷ 100 ∷ 102 ∷ 52 ∷ []) 33 68
    ∷ dev (104 ∷ 100 ∷ 102 ∷ 53 ∷ []) 33 69
    ∷ dev (104 ∷ 100 ∷ 102 ∷ 54 ∷ []) 33 70
    ∷ dev (104 ∷ 100 ∷ 102 ∷ 55 ∷ []) 33 71
    ∷ dev (104 ∷ 100 ∷ 102 ∷ 56 ∷ []) 33 72
    ∷ dev (104 ∷ 100 ∷ 103 ∷ 49 ∷ []) 34 1
    ∷ dev (104 ∷ 100 ∷ 103 ∷ 50 ∷ []) 34 2
    ∷ dev (104 ∷ 100 ∷ 103 ∷ 51 ∷ []) 34 3
    ∷ dev (104 ∷ 100 ∷ 103 ∷ 52 ∷ []) 34 4
    ∷ dev (104 ∷ 100 ∷ 103 ∷ 53 ∷ []) 34 5
    ∷ dev (104 ∷ 100 ∷ 103 ∷ 54 ∷ []) 34 6
    ∷ dev (104 ∷ 100 ∷ 103 ∷ 55 ∷ []) 34 7
    ∷ dev (104 ∷ 100 ∷ 103 ∷ 56 ∷ []) 34 8
    ∷ dev (104 ∷ 100 ∷ 104 ∷ 49 ∷ []) 34 65
    ∷ dev (104 ∷ 100 ∷ 104 ∷ 50 ∷ []) 34 66
    ∷ dev (104 ∷ 100 ∷ 104 ∷ 51 ∷ []) 34 67
    ∷ dev (104 ∷ 100 ∷ 104 ∷ 52 ∷ []) 34 68
    ∷ dev (104 ∷ 100 ∷ 104 ∷ 53 ∷ []) 34 69
    ∷ dev (104 ∷ 100 ∷ 104 ∷ 54 ∷ []) 34 70
    ∷ dev (104 ∷ 100 ∷ 104 ∷ 55 ∷ []) 34 71
    ∷ dev (104 ∷ 100 ∷ 104 ∷ 56 ∷ []) 34 72
    ∷ dev (104 ∷ 100 ∷ 105 ∷ 49 ∷ []) 56 1
    ∷ dev (104 ∷ 100 ∷ 105 ∷ 50 ∷ []) 56 2
    ∷ dev (104 ∷ 100 ∷ 105 ∷ 51 ∷ []) 56 3
    ∷ dev (104 ∷ 100 ∷ 105 ∷ 52 ∷ []) 56 4
    ∷ dev (104 ∷ 100 ∷ 105 ∷ 53 ∷ []) 56 5
    ∷ dev (104 ∷ 100 ∷ 105 ∷ 54 ∷ []) 56 6
    ∷ dev (104 ∷ 100 ∷ 105 ∷ 55 ∷ []) 56 7
    ∷ dev (104 ∷ 100 ∷ 105 ∷ 56 ∷ []) 56 8
    ∷ dev (104 ∷ 100 ∷ 106 ∷ 49 ∷ []) 56 65
    ∷ dev (104 ∷ 100 ∷ 106 ∷ 50 ∷ []) 56 66
    ∷ dev (104 ∷ 100 ∷ 106 ∷ 51 ∷ []) 56 67
    ∷ dev (104 ∷ 100 ∷ 106 ∷ 52 ∷ []) 56 68
    ∷ dev (104 ∷ 100 ∷ 106 ∷ 53 ∷ []) 56 69
    ∷ dev (104 ∷ 100 ∷ 106 ∷ 54 ∷ []) 56 70
    ∷ dev (104 ∷ 100 ∷ 106 ∷ 55 ∷ []) 56 71
    ∷ dev (104 ∷ 100 ∷ 106 ∷ 56 ∷ []) 56 72
    ∷ dev (104 ∷ 100 ∷ 107 ∷ 49 ∷ []) 57 1
    ∷ dev (104 ∷ 100 ∷ 107 ∷ 50 ∷ []) 57 2
    ∷ dev (104 ∷ 100 ∷ 107 ∷ 51 ∷ []) 57 3
    ∷ dev (104 ∷ 100 ∷ 107 ∷ 52 ∷ []) 57 4
    ∷ dev (104 ∷ 100 ∷ 107 ∷ 53 ∷ []) 57 5
    ∷ dev (104 ∷ 100 ∷ 107 ∷ 54 ∷ []) 57 6
    ∷ dev (104 ∷ 100 ∷ 107 ∷ 55 ∷ []) 57 7
    ∷ dev (104 ∷ 100 ∷ 107 ∷ 56 ∷ []) 57 8
    ∷ dev (104 ∷ 100 ∷ 108 ∷ 49 ∷ []) 57 65
    ∷ dev (104 ∷ 100 ∷ 108 ∷ 50 ∷ []) 57 66
    ∷ dev (104 ∷ 100 ∷ 108 ∷ 51 ∷ []) 57 67
    ∷ dev (104 ∷ 100 ∷ 108 ∷ 52 ∷ []) 57 68
    ∷ dev (104 ∷ 100 ∷ 108 ∷ 53 ∷ []) 57 69
    ∷ dev (104 ∷ 100 ∷ 108 ∷ 54 ∷ []) 57 70
    ∷ dev (104 ∷ 100 ∷ 108 ∷ 55 ∷ []) 57 71
    ∷ dev (104 ∷ 100 ∷ 108 ∷ 56 ∷ []) 57 72
    ∷ []

abbrev pub sd_devs : List BootDev
sd_devs =
    dev (115 ∷ 100 ∷ 97 ∷ 49 ∷ []) 8 1
    ∷ dev (115 ∷ 100 ∷ 97 ∷ 50 ∷ []) 8 2
    ∷ dev (115 ∷ 100 ∷ 97 ∷ 51 ∷ []) 8 3
    ∷ dev (115 ∷ 100 ∷ 97 ∷ 52 ∷ []) 8 4
    ∷ dev (115 ∷ 100 ∷ 97 ∷ 53 ∷ []) 8 5
    ∷ dev (115 ∷ 100 ∷ 97 ∷ 54 ∷ []) 8 6
    ∷ dev (115 ∷ 100 ∷ 97 ∷ 55 ∷ []) 8 7
    ∷ dev (115 ∷ 100 ∷ 97 ∷ 56 ∷ []) 8 8
    ∷ dev (115 ∷ 100 ∷ 97 ∷ 57 ∷ []) 8 9
    ∷ dev (115 ∷ 100 ∷ 97 ∷ 49 ∷ 48 ∷ []) 8 10
    ∷ dev (115 ∷ 100 ∷ 97 ∷ 49 ∷ 49 ∷ []) 8 11
    ∷ dev (115 ∷ 100 ∷ 97 ∷ 49 ∷ 50 ∷ []) 8 12
    ∷ dev (115 ∷ 100 ∷ 97 ∷ 49 ∷ 51 ∷ []) 8 13
    ∷ dev (115 ∷ 100 ∷ 97 ∷ 49 ∷ 52 ∷ []) 8 14
    ∷ dev (115 ∷ 100 ∷ 97 ∷ 49 ∷ 53 ∷ []) 8 15
    ∷ dev (115 ∷ 100 ∷ 97 ∷ 49 ∷ 54 ∷ []) 8 16
    ∷ dev (115 ∷ 100 ∷ 98 ∷ 49 ∷ []) 8 17
    ∷ dev (115 ∷ 100 ∷ 98 ∷ 50 ∷ []) 8 18
    ∷ dev (115 ∷ 100 ∷ 98 ∷ 51 ∷ []) 8 19
    ∷ dev (115 ∷ 100 ∷ 98 ∷ 52 ∷ []) 8 20
    ∷ dev (115 ∷ 100 ∷ 98 ∷ 53 ∷ []) 8 21
    ∷ dev (115 ∷ 100 ∷ 98 ∷ 54 ∷ []) 8 22
    ∷ dev (115 ∷ 100 ∷ 98 ∷ 55 ∷ []) 8 23
    ∷ dev (115 ∷ 100 ∷ 98 ∷ 56 ∷ []) 8 24
    ∷ dev (115 ∷ 100 ∷ 98 ∷ 57 ∷ []) 8 25
    ∷ dev (115 ∷ 100 ∷ 98 ∷ 49 ∷ 48 ∷ []) 8 26
    ∷ dev (115 ∷ 100 ∷ 98 ∷ 49 ∷ 49 ∷ []) 8 27
    ∷ dev (115 ∷ 100 ∷ 98 ∷ 49 ∷ 50 ∷ []) 8 28
    ∷ dev (115 ∷ 100 ∷ 98 ∷ 49 ∷ 51 ∷ []) 8 29
    ∷ dev (115 ∷ 100 ∷ 98 ∷ 49 ∷ 52 ∷ []) 8 30
    ∷ dev (115 ∷ 100 ∷ 98 ∷ 49 ∷ 53 ∷ []) 8 31
    ∷ dev (115 ∷ 100 ∷ 98 ∷ 49 ∷ 54 ∷ []) 8 32
    ∷ dev (115 ∷ 100 ∷ 99 ∷ 49 ∷ []) 8 33
    ∷ dev (115 ∷ 100 ∷ 99 ∷ 50 ∷ []) 8 34
    ∷ dev (115 ∷ 100 ∷ 99 ∷ 51 ∷ []) 8 35
    ∷ dev (115 ∷ 100 ∷ 99 ∷ 52 ∷ []) 8 36
    ∷ dev (115 ∷ 100 ∷ 99 ∷ 53 ∷ []) 8 37
    ∷ dev (115 ∷ 100 ∷ 99 ∷ 54 ∷ []) 8 38
    ∷ dev (115 ∷ 100 ∷ 99 ∷ 55 ∷ []) 8 39
    ∷ dev (115 ∷ 100 ∷ 99 ∷ 56 ∷ []) 8 40
    ∷ dev (115 ∷ 100 ∷ 99 ∷ 57 ∷ []) 8 41
    ∷ dev (115 ∷ 100 ∷ 99 ∷ 49 ∷ 48 ∷ []) 8 42
    ∷ dev (115 ∷ 100 ∷ 99 ∷ 49 ∷ 49 ∷ []) 8 43
    ∷ dev (115 ∷ 100 ∷ 99 ∷ 49 ∷ 50 ∷ []) 8 44
    ∷ dev (115 ∷ 100 ∷ 99 ∷ 49 ∷ 51 ∷ []) 8 45
    ∷ dev (115 ∷ 100 ∷ 99 ∷ 49 ∷ 52 ∷ []) 8 46
    ∷ dev (115 ∷ 100 ∷ 99 ∷ 49 ∷ 53 ∷ []) 8 47
    ∷ dev (115 ∷ 100 ∷ 99 ∷ 49 ∷ 54 ∷ []) 8 48
    ∷ dev (115 ∷ 100 ∷ 100 ∷ 49 ∷ []) 8 49
    ∷ dev (115 ∷ 100 ∷ 100 ∷ 50 ∷ []) 8 50
    ∷ dev (115 ∷ 100 ∷ 100 ∷ 51 ∷ []) 8 51
    ∷ dev (115 ∷ 100 ∷ 100 ∷ 52 ∷ []) 8 52
    ∷ dev (115 ∷ 100 ∷ 100 ∷ 53 ∷ []) 8 53
    ∷ dev (115 ∷ 100 ∷ 100 ∷ 54 ∷ []) 8 54
    ∷ dev (115 ∷ 100 ∷ 100 ∷ 55 ∷ []) 8 55
    ∷ dev (115 ∷ 100 ∷ 100 ∷ 56 ∷ []) 8 56
    ∷ dev (115 ∷ 100 ∷ 100 ∷ 57 ∷ []) 8 57
    ∷ dev (115 ∷ 100 ∷ 100 ∷ 49 ∷ 48 ∷ []) 8 58
    ∷ dev (115 ∷ 100 ∷ 100 ∷ 49 ∷ 49 ∷ []) 8 59
    ∷ dev (115 ∷ 100 ∷ 100 ∷ 49 ∷ 50 ∷ []) 8 60
    ∷ dev (115 ∷ 100 ∷ 100 ∷ 49 ∷ 51 ∷ []) 8 61
    ∷ dev (115 ∷ 100 ∷ 100 ∷ 49 ∷ 52 ∷ []) 8 62
    ∷ dev (115 ∷ 100 ∷ 100 ∷ 49 ∷ 53 ∷ []) 8 63
    ∷ dev (115 ∷ 100 ∷ 100 ∷ 49 ∷ 54 ∷ []) 8 64
    ∷ dev (115 ∷ 100 ∷ 101 ∷ 49 ∷ []) 8 65
    ∷ dev (115 ∷ 100 ∷ 101 ∷ 50 ∷ []) 8 66
    ∷ dev (115 ∷ 100 ∷ 101 ∷ 51 ∷ []) 8 67
    ∷ dev (115 ∷ 100 ∷ 101 ∷ 52 ∷ []) 8 68
    ∷ dev (115 ∷ 100 ∷ 101 ∷ 53 ∷ []) 8 69
    ∷ dev (115 ∷ 100 ∷ 101 ∷ 54 ∷ []) 8 70
    ∷ dev (115 ∷ 100 ∷ 101 ∷ 55 ∷ []) 8 71
    ∷ dev (115 ∷ 100 ∷ 101 ∷ 56 ∷ []) 8 72
    ∷ dev (115 ∷ 100 ∷ 101 ∷ 57 ∷ []) 8 73
    ∷ dev (115 ∷ 100 ∷ 101 ∷ 49 ∷ 48 ∷ []) 8 74
    ∷ dev (115 ∷ 100 ∷ 101 ∷ 49 ∷ 49 ∷ []) 8 75
    ∷ dev (115 ∷ 100 ∷ 101 ∷ 49 ∷ 50 ∷ []) 8 76
    ∷ dev (115 ∷ 100 ∷ 101 ∷ 49 ∷ 51 ∷ []) 8 77
    ∷ dev (115 ∷ 100 ∷ 101 ∷ 49 ∷ 52 ∷ []) 8 78
    ∷ dev (115 ∷ 100 ∷ 101 ∷ 49 ∷ 53 ∷ []) 8 79
    ∷ dev (115 ∷ 100 ∷ 101 ∷ 49 ∷ 54 ∷ []) 8 80
    ∷ dev (115 ∷ 100 ∷ 102 ∷ 49 ∷ []) 8 81
    ∷ dev (115 ∷ 100 ∷ 102 ∷ 50 ∷ []) 8 82
    ∷ dev (115 ∷ 100 ∷ 102 ∷ 51 ∷ []) 8 83
    ∷ dev (115 ∷ 100 ∷ 102 ∷ 52 ∷ []) 8 84
    ∷ dev (115 ∷ 100 ∷ 102 ∷ 53 ∷ []) 8 85
    ∷ dev (115 ∷ 100 ∷ 102 ∷ 54 ∷ []) 8 86
    ∷ dev (115 ∷ 100 ∷ 102 ∷ 55 ∷ []) 8 87
    ∷ dev (115 ∷ 100 ∷ 102 ∷ 56 ∷ []) 8 88
    ∷ dev (115 ∷ 100 ∷ 102 ∷ 57 ∷ []) 8 89
    ∷ dev (115 ∷ 100 ∷ 102 ∷ 49 ∷ 48 ∷ []) 8 90
    ∷ dev (115 ∷ 100 ∷ 102 ∷ 49 ∷ 49 ∷ []) 8 91
    ∷ dev (115 ∷ 100 ∷ 102 ∷ 49 ∷ 50 ∷ []) 8 92
    ∷ dev (115 ∷ 100 ∷ 102 ∷ 49 ∷ 51 ∷ []) 8 93
    ∷ dev (115 ∷ 100 ∷ 102 ∷ 49 ∷ 52 ∷ []) 8 94
    ∷ dev (115 ∷ 100 ∷ 102 ∷ 49 ∷ 53 ∷ []) 8 95
    ∷ dev (115 ∷ 100 ∷ 102 ∷ 49 ∷ 54 ∷ []) 8 96
    ∷ dev (115 ∷ 100 ∷ 103 ∷ 49 ∷ []) 8 97
    ∷ dev (115 ∷ 100 ∷ 103 ∷ 50 ∷ []) 8 98
    ∷ dev (115 ∷ 100 ∷ 103 ∷ 51 ∷ []) 8 99
    ∷ dev (115 ∷ 100 ∷ 103 ∷ 52 ∷ []) 8 100
    ∷ dev (115 ∷ 100 ∷ 103 ∷ 53 ∷ []) 8 101
    ∷ dev (115 ∷ 100 ∷ 103 ∷ 54 ∷ []) 8 102
    ∷ dev (115 ∷ 100 ∷ 103 ∷ 55 ∷ []) 8 103
    ∷ dev (115 ∷ 100 ∷ 103 ∷ 56 ∷ []) 8 104
    ∷ dev (115 ∷ 100 ∷ 103 ∷ 57 ∷ []) 8 105
    ∷ dev (115 ∷ 100 ∷ 103 ∷ 49 ∷ 48 ∷ []) 8 106
    ∷ dev (115 ∷ 100 ∷ 103 ∷ 49 ∷ 49 ∷ []) 8 107
    ∷ dev (115 ∷ 100 ∷ 103 ∷ 49 ∷ 50 ∷ []) 8 108
    ∷ dev (115 ∷ 100 ∷ 103 ∷ 49 ∷ 51 ∷ []) 8 109
    ∷ dev (115 ∷ 100 ∷ 103 ∷ 49 ∷ 52 ∷ []) 8 110
    ∷ dev (115 ∷ 100 ∷ 103 ∷ 49 ∷ 53 ∷ []) 8 111
    ∷ dev (115 ∷ 100 ∷ 103 ∷ 49 ∷ 54 ∷ []) 8 112
    ∷ []

abbrev pub other_devs : List BootDev
other_devs =
    dev (115 ∷ 99 ∷ 100 ∷ 48 ∷ []) 11 0
    ∷ dev (115 ∷ 99 ∷ 100 ∷ 49 ∷ []) 11 1
    ∷ dev (109 ∷ 100 ∷ 48 ∷ []) 9 0
    ∷ dev (109 ∷ 100 ∷ 49 ∷ []) 9 1
    ∷ dev (109 ∷ 100 ∷ 50 ∷ []) 9 2
    ∷ dev (109 ∷ 100 ∷ 51 ∷ []) 9 3
    ∷ dev (109 ∷ 100 ∷ 52 ∷ []) 9 4
    ∷ dev (109 ∷ 100 ∷ 53 ∷ []) 9 5
    ∷ []
