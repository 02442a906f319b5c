-- ===== src/Tests/Start.antt =====
-- The start of the server: tyfirc-server/main.cpp.
use tyfirc.Base.{arith, ℕ, Bool, true, false, ◌≡◌, refl, List, [], ◌∷◌, none, some, if◌then◌else◌}
use tyfirc.Base.Text.{codes, str_eq, compare_str, find, find_from, substr}
use tyfirc.Base.Map.{insert, lookup}
use tyfirc.Base.Result.{Result, ok}
use tyfirc.Misc.{split}
use tyfirc.AuthManager.{
  FileAuthManager, Files, new_manager, setup, parse_line, map_lines, render, login,
}
use tyfirc.AuthManager.Files.{IsStored}
use tyfirc.Db.{
  Session, Statement, Row, user_row, id_row, select_by_id, select_all, select_identity,
  open_repository, read_by_id, read_where, read_all, update_user_of, delete, row_users,
}
use tyfirc.Db
use tyfirc.Server.{Server, accepting}
use tyfirc.Server.App.{initial, handle_accept, Step, turn, here, next, succeeded, complete}
use tyfirc.Server.Main.{main, main-login}
use tyfirc.Tests.Chat.{clock}

-- A database whose answers are always the same.
abbrev fixed : Session ℕ
fixed = record { execute = run }
  where
    run : Statement → ℕ → ℕ × Result (Bool × List Row)
    run (select_by_id id) d = (d, ok (true, user_row id (codes "bob") (codes "y") ∷ []))
    run select_all d = (d, ok (true, user_row 1 (codes "ann") (codes "x") ∷ []))
    run select_identity d = (d, ok (true, id_row 7 ∷ []))
    run _ d = (d, ok (false, []))

abbrev disk : Files
disk name = if str_eq name (codes "passwords") then some (codes "ann x\n") else none

abbrev loaded : FileAuthManager
loaded = record {
  auth_filename = codes "passwords";
  is_file_outdated = false;
  auth_info = (codes "ann", codes "x") ∷ [];
}

loading : setup disk new_manager (codes "passwords") ≡ (loaded, ok tt)
unfolding setup compare_str split find find_from substr parse_line map_lines insert
loading = refl

running : main fixed (λ name. ok 0) disk ≡ ok (initial loaded)
unfolding main open_repository read_by_id read_where read_all Db.insert update_user_of delete
    row_users
running = rw loading refl

abbrev guest : Server
guest = handle_accept 0 false (record (initial loaded) { ops = [] })

guest-Step : Step clock (initial loaded) guest
unfolding initial complete
guest-Step = turn 0 [] (accepting 0) [] (succeeded []) refl refl refl

loaded-IsStored : IsStored ((codes "ann", codes "x") ∷ [])
loaded-IsStored = record {
  ordered = tt;
  storable = ((omega arith, omega arith, omega arith, omega arith), tt);
}

main-login_example :
    login guest.auth_manager (codes "ann") (codes "y") ≡ str_eq (codes "x") (codes "y")
unfolding render lookup compare_str
main-login_example =
    main-login fixed (λ name. ok 0) clock disk ((codes "ann", codes "x") ∷ []) (codes "ann")
      (codes "x") (codes "y") loaded-IsStored refl refl running (next here guest-Step)
