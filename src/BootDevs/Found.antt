-- ===== src/BootDevs/Found.antt =====
-- Every boot device is found by its name and by its number.
use cobalt_rom.Prelude.{
  ℕ, zero, suc, ◌+◌, ◌*◌, ◌<◌, ◌≡◌, refl, Bool, true, false, ◌&&◌, Option, none, some, ◌==◌, List,
  [], ◌∷◌, length, get_or, arith,
}
use cobalt_rom.Text.{strcmp}
use cobalt_rom.BootDevs.{boot_devs, find_name, find_num, find_dev_by_name, find_dev_by_num}
use cobalt_rom.BootDevs.Table.{BootDev}

same_name : List ℕ → List ℕ → Bool
same_name [] [] = true
same_name [] (y ∷ ys) = false
same_name (x ∷ xs) [] = false
same_name (x ∷ xs) (y ∷ ys) = (x == y) && same_name xs ys

same_name-equal : (xs ys : List ℕ) → same_name xs ys ≡ true → xs ≡ ys
unfolding same_name
same_name-equal [] [] h = refl
same_name-equal [] (y ∷ ys) h = absurd (ground (arith, h))
same_name-equal (x ∷ xs) [] h = absurd (ground (arith, h))
same_name-equal (x ∷ xs) (y ∷ ys) h =
    let p : x ≡ y = ground (arith, h) in
    let q : xs ≡ ys = same_name-equal xs ys (ground (arith, h)) in rw (p, q) refl

is_dev : BootDev → Option BootDev → Bool
is_dev d none = false
is_dev d (some e) = same_name e.name d.name && ((e.maj == d.maj) && (e.min == d.min))

is_dev-equal : (d : BootDev) (o : Option BootDev) → is_dev d o ≡ true → o ≡ some d
unfolding is_dev
is_dev-equal d none h = absurd (ground (arith, h))
is_dev-equal d (some e) h =
    let n : e.name ≡ d.name = same_name-equal e.name d.name (ground (arith, h)) in
    let a : e.maj ≡ d.maj = ground (arith, h) in
    let i : e.min ≡ d.min = ground (arith, h) in
    λ k. some (record { name = n k; maj = a k; min = i k })

finds : BootDev → Bool
finds d = is_dev d (find_dev_by_name d.name) && is_dev d (find_dev_by_num (d.maj * 256 + d.min))

all_devs : (BootDev → Bool) → List BootDev → Bool
all_devs p [] = true
all_devs p (d ∷ ds) = p d && all_devs p ds

all_devs-at :
    (p : BootDev → Bool) (ds : List BootDev) (i : ℕ) (none_such : BootDev)
    → all_devs p ds ≡ true
    → i < length ds
    → p (get_or ds i none_such) ≡ true
unfolding all_devs
all_devs-at p [] i none_such h lt = absurd (omega (arith, lt))
all_devs-at p (d ∷ ds) zero none_such h lt = ground (arith, h)
all_devs-at p (d ∷ ds) (suc i) none_such h lt =
    all_devs-at p ds i none_such (ground (arith, h)) (omega (arith, lt))

all_found : all_devs finds boot_devs ≡ true
unfolding all_devs finds is_dev same_name find_dev_by_name find_dev_by_num find_name find_num strcmp
all_found = refl

-- No two devices of the table share a name or a number: find_dev_by_name gives each device for its
-- name, and find_dev_by_num for its major and minor number in one 16-bit number.
pub find_dev_lem :
    (i : ℕ) (none_such : BootDev)
    → i < length boot_devs
    → (find_dev_by_name ((get_or boot_devs i none_such).name) ≡ some (get_or boot_devs i none_such))
      × (find_dev_by_num
            ((get_or boot_devs i none_such).maj * 256 + (get_or boot_devs i none_such).min)
          ≡ some (get_or boot_devs i none_such))
find_dev_lem i none_such lt =
    found (get_or boot_devs i none_such) (all_devs-at finds boot_devs i none_such all_found lt)
  where
    found :
        (d : BootDev)
        → finds d ≡ true
        → (find_dev_by_name d.name ≡ some d) × (find_dev_by_num (d.maj * 256 + d.min) ≡ some d)
    found d h =
        unfold finds in
        (
          is_dev-equal d (find_dev_by_name d.name) (ground (arith, h)),
          is_dev-equal d (find_dev_by_num (d.maj * 256 + d.min)) (ground (arith, h)),
        )
