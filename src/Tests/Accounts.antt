-- ===== src/Tests/Accounts.antt =====
-- Accounts and their file: tyfirc-server/tyfirc-authmanager.cpp.
use tyfirc.Base.{
  ◌≤◌, ◌≡◌, refl, true, false, ◌&&◌, none, some, [], ◌∷◌, arith, if◌then◌else◌, length, not,
}
use tyfirc.Base.Text.{Str, codes, str_eq, compare_str}
use tyfirc.Base.Map.{Map, insert, lookup}
use tyfirc.Base.Result.{ok, throw, invalid_argument}
use tyfirc.AuthManager.{
  FileAuthManager, Files, new_manager, login, register, setup, destroy, render,
}
use tyfirc.AuthManager.Accounts.{is_some, account, login-register}
use tyfirc.AuthManager.Blanks.{setup-destroy_blank}
use tyfirc.AuthManager.Files.{IsStored, loaded, setup-destroy, setup-register}

abbrev users : Map Str
users = (codes "ann", codes "x") ∷ (codes "bob", codes "y") ∷ []

abbrev manager : FileAuthManager
manager = record { auth_filename = codes "passwords"; is_file_outdated = true; auth_info = users }

users-IsStored : IsStored users
unfolding compare_str
users-IsStored = record {
  ordered = (refl, tt);
  storable = (
    (omega arith, omega arith, omega arith, omega arith),
    ((omega arith, omega arith, omega arith, omega arith), tt),
  );
}

abbrev disk : Files
disk name = if str_eq name (codes "passwords") then some (codes "ann x\n") else none

login-register_example :
    ((register manager (codes "ann") (codes "z")).1 ≡ not (is_some (account manager (codes "ann"))))
    × (login (register manager (codes "ann") (codes "z")).0 (codes "ann") (codes "x") ≡ (
        if not (is_some (account manager (codes "ann"))) && str_eq (codes "ann") (codes "ann")
        then str_eq (codes "z") (codes "x")
        else login manager (codes "ann") (codes "x")))
login-register_example = login-register manager (codes "ann") (codes "z") (codes "ann") (codes "x")

disk_passwords : disk (codes "passwords") ≡ some (codes "ann x\n")
unfolding compare_str
disk_passwords = refl

disk-fits : length (codes "ann x\n") ≤ length (render users)
unfolding render
disk-fits = omega arith

setup-destroy_example :
    setup (destroy manager disk) new_manager (codes "passwords")
    ≡ (record manager { is_file_outdated = false }, ok tt)
setup-destroy_example =
    setup-destroy manager disk (codes "ann x\n") users-IsStored refl disk_passwords disk-fits

abbrev ann_only : Map Str
ann_only = (codes "ann", codes "x") ∷ []

ann_only-IsStored : IsStored ann_only
ann_only-IsStored = record {
  ordered = tt;
  storable = ((omega arith, omega arith, omega arith, omega arith), tt);
}

disk-render : disk (codes "passwords") ≡ some (render ann_only)
unfolding compare_str render
disk-render = refl

bob_fresh : lookup (codes "bob") ann_only ≡ none
unfolding lookup compare_str
bob_fresh = refl

setup-register_example :
    (setup disk new_manager (codes "passwords") ≡ (loaded (codes "passwords") ann_only, ok tt))
    × (setup
          (destroy
            (register (loaded (codes "passwords") ann_only) (codes "bob") (codes "y")).0
            disk)
          new_manager
          (codes "passwords")
        ≡ (loaded (codes "passwords") (insert (codes "bob") (codes "y") ann_only), ok tt))
setup-register_example =
    setup-register disk (codes "passwords") (codes "bob") (codes "y") ann_only ann_only-IsStored
      disk-render bob_fresh (omega arith, omega arith, omega arith, omega arith)

abbrev blank_manager : FileAuthManager
blank_manager = record {
  auth_filename = codes "passwords";
  is_file_outdated = true;
  auth_info = (codes "a b", codes "pass") ∷ [];
}

blank_there : lookup (codes "a b") blank_manager.auth_info ≡ some (codes "pass")
unfolding lookup compare_str
blank_there = refl

blank-fits : length (codes "ann x\n") ≤ length (render blank_manager.auth_info)
unfolding render
blank-fits = omega arith

setup-destroy_blank_example :
    (setup (destroy blank_manager disk) new_manager (codes "passwords")).1 ≡ throw invalid_argument
setup-destroy_blank_example =
    setup-destroy_blank blank_manager disk (codes "ann x\n") (codes "a") (codes "b") (codes "pass")
      ((omega arith, omega arith), tt) blank_there (omega arith) refl disk_passwords blank-fits
