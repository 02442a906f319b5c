-- ===== src/Db.antt =====
-- tyfirc/db/tyfirc-repository.h: the repository of users over a database session. The session is a
-- parameter: a statement gives rows or throws.
pub mod Users
use tyfirc.Base.{ℕ, Bool, true, false, List, [], ◌∷◌, ◌++◌, if◌then◌else◌, ◌≡◌}
use tyfirc.Base.Text.{Str}
use tyfirc.Base.Result.{Result, ok, throw, ub, Exception, repository, connection_fail, ◌>>=◌}

-- `struct DbUser`.
pub record DbUser : Type 0 where
  pub userid : ℕ
  pub username : Str
  pub password : Str

-- The statements that the repository executes, with the values that it binds.
pub data Statement : Type 0 where
  use_tyfirc : Statement
  select_by_id : ℕ → Statement
  select_all : Statement
  insert_user : ℕ → Str → Str → Statement
  select_identity : Statement
  update_user : Str → Str → ℕ → Statement
  delete_by_id : ℕ → Statement

-- A row of `users`, or the row of `@@identity`.
pub data Row : Type 0 where
  user_row : ℕ → Str → Str → Row
  id_row : ℕ → Row

-- `mysqlx::Session`: what a statement leaves, whether its result has data, and its rows.
pub record Session (D : Type 0) : Type 0 where
  pub execute : Statement → D → D × Result (Bool × List Row)

-- `CATCH_AND_WRAP_IN_REPO_EXCEPTION`. `ConnectionFailException` inherits privately, so that it is no
-- `std::exception` to a handler.
abbrev pub wrap {ℓ} : {A : Type ℓ} → Result A → Result A
wrap (ok a) = ok a
wrap (throw connection_fail) = throw connection_fail
wrap (throw e) = throw repository
wrap ub = ub

-- `row.get`: a column that is not there, or a value of another type, throws.
abbrev pub row_user : Row → Result DbUser
row_user (user_row id name word) = ok (record { userid = id; username = name; password = word })
row_user (id_row id) = throw Exception.system_error

abbrev pub row_id : Row → Result ℕ
row_id (user_row id name word) = ok id
row_id (id_row id) = ok id

-- The loop of `ReadAll`, which pushes back each user.
unfoldable pub row_users : List DbUser → List Row → Result (List DbUser)
row_users res [] = ok res
row_users res (row ∷ rows) = do user ← row_user row; row_users (res ++ user ∷ []) rows

-- The loop of `ReadWhere`.
unfoldable pub push_matching :
    (DbUser → Result Bool) → List DbUser → List DbUser → Result (List DbUser)
push_matching condition res [] = ok res
push_matching condition res (user ∷ users) = do
  meets ← condition user
  push_matching condition (if meets then res ++ user ∷ [] else res) users

-- `fetchOne` on no row gives a null row, and reading a column of it throws.
abbrev pub fetch_user : ℕ → List Row → Result DbUser
fetch_user id [] = throw Exception.system_error
fetch_user id (row ∷ rows) = do user ← row_user row; ok (record user { userid = id })

abbrev pub fetch_id : List Row → Result ℕ
fetch_id [] = throw Exception.system_error
fetch_id (row ∷ rows) = row_id row

-- `ReadById` behind the statement: with no data it makes strings from null pointers.
abbrev pub user_of : ℕ → Bool × List Row → Result DbUser
user_of id (false, rows) = ub
user_of id (true, rows) = fetch_user id rows

abbrev pub users_of : Bool × List Row → Result (List DbUser)
users_of (false, rows) = ok []
users_of (true, rows) = row_users [] rows

module _ {D : Type 0} (session : Session D) where
  abbrev pub continue {ℓ} :
      {A : Type ℓ} → (Bool × List Row → Result A) → D × Result (Bool × List Row) → D × Result A
  continue f (d, r) = (d, wrap (r >>= f))

  -- The body of the constructor. What the statement throws is not wrapped.
  unfoldable pub open_repository : D → D × Result {0} Unit
  open_repository d = let (e, r) = session.execute use_tyfirc d in (e, r >>= (λ result. ok tt))

  unfoldable pub read_by_id : ℕ → D → D × Result DbUser
  read_by_id id d = continue (user_of id) (session.execute (select_by_id id) d)

  unfoldable pub read_all : D → D × Result (List DbUser)
  read_all d = continue users_of (session.execute select_all d)

  -- What `ReadAll` throws goes on as it is; what the condition throws is wrapped.
  unfoldable pub read_where : (DbUser → Result Bool) → D → D × Result (List DbUser)
  unfolding push_matching
  read_where condition d =
      let (e, all) = read_all d in (e, all >>= (λ users. wrap (push_matching condition [] users)))

  abbrev pub identity_of : D × Result (Bool × List Row) → D × Result ℕ
  identity_of (d, r) = continue (λ result. fetch_id result.1) (d, r)

  abbrev pub inserted : D × Result (Bool × List Row) → D × Result ℕ
  inserted (d, ok result) = identity_of (session.execute select_identity d)
  inserted (d, throw e) = (d, wrap (throw e))
  inserted (d, ub) = (d, ub)

  unfoldable pub insert : DbUser → D → D × Result ℕ
  insert u d = inserted (session.execute (insert_user u.userid u.username u.password) d)

  abbrev done : D × Result (Bool × List Row) → D × Result {0} Unit
  done (d, r) = continue (λ result. ok tt) (d, r)

  unfoldable pub update_user_of : DbUser → D → D × Result {0} Unit
  update_user_of u d = done (session.execute (update_user u.username u.password u.userid) d)

  unfoldable pub delete_by_id_of : ℕ → D → D × Result {0} Unit
  delete_by_id_of id d = done (session.execute (delete_by_id id) d)

  unfoldable pub delete : DbUser → D → D × Result {0} Unit
  delete u d = done (session.execute (delete_by_id u.userid) d)
