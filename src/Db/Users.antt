-- ===== src/Db/Users.antt =====
-- What the repository of users promises: which exceptions it throws, and what `ReadWhere` finds.
use tyfirc.Base.{
  ℕ, Bool, true, ◌⊎◌, ◌≡◌, refl, sym, ap, ◌∙◌, List, [], ◌∷◌, ◌++◌, map, append_assoc, append-nil,
  if◌then◌else◌, Bool-cases, inl, inr,
}
use tyfirc.Base.Result.{Result, ok, throw, ub, repository, connection_fail, ◌>>=◌}
use tyfirc.Db.{
  DbUser, select_all, Row, user_row, Session, wrap, row_users, push_matching, read_by_id, read_all,
  read_where, inserted, insert, update_user_of, delete_by_id_of, delete,
}

-- If it throws, it throws a `RepositoryException`, or what no handler of a `std::exception` catches.
abbrev pub OnlyRepository : {A : Type 0} → Result A → Type 0
OnlyRepository (throw x) = (x ≡ repository) ⊎ (x ≡ connection_fail)
OnlyRepository _ = Unit

wrap-OnlyRepository : {A : Type 0} (r : Result A) → OnlyRepository (wrap r)
wrap-OnlyRepository (ok a) = tt
wrap-OnlyRepository (throw connection_fail) = inr refl
wrap-OnlyRepository (throw _) = inl refl
wrap-OnlyRepository ub = tt

-- The row of a user.
abbrev pub row_of : DbUser → Row
row_of u = user_row u.userid u.username u.password

-- The users that meet a condition, in their order.
abbrev pub matching : (DbUser → Bool) → List DbUser → List DbUser
matching condition [] = []
matching condition (u ∷ us) =
    if condition u then u ∷ matching condition us else matching condition us

row_users-row_of : (res users : List DbUser) → row_users res (map row_of users) ≡ ok (res ++ users)
unfolding row_users
row_users-row_of res [] = ap ok (sym (append-nil res))
row_users-row_of res (u ∷ us) =
    row_users-row_of (res ++ u ∷ []) us ∙ ap ok (append_assoc res (u ∷ []) us)

push_matching-matching :
    (condition : DbUser → Bool) (res users : List DbUser)
    → push_matching (λ u. ok (condition u)) res users ≡ ok (res ++ matching condition users)
unfolding push_matching
push_matching-matching condition res [] = ap ok (sym (append-nil res))
push_matching-matching condition res (u ∷ us) = elim (Bool-cases (condition u)) [
  | inl e ↦ rw e (
      push_matching-matching condition (res ++ u ∷ []) us
      ∙ ap ok (append_assoc res (u ∷ []) (matching condition us)))
  | inr e ↦ rw e (push_matching-matching condition res us)
]

module _ {D : Type 0} (session : Session D) where
  -- If the database gives the rows of the users, `ReadWhere` gives those users that meet the
  -- condition, each once and in the order of the rows.
  pub read_where-matching :
      (condition : DbUser → Bool) (d e : D) (users : List DbUser)
      → session.execute select_all d ≡ (e, ok (true, map row_of users))
      → read_where session (λ u. ok (condition u)) d ≡ (e, ok (matching condition users))
  unfolding read_where read_all
  read_where-matching condition d e users rows =
      rw (rows, row_users-row_of [] users, push_matching-matching condition [] users) refl

  read_where-OnlyRepository :
      (condition : DbUser → Result Bool) (r : Result (List DbUser))
      → OnlyRepository r
      → OnlyRepository (r >>= (λ users. wrap (push_matching condition [] users)))
  read_where-OnlyRepository condition (ok users) only = wrap-OnlyRepository _
  read_where-OnlyRepository condition (throw x) only = only
  read_where-OnlyRepository condition ub only = tt

  inserted-OnlyRepository :
      (r : D × Result (Bool × List Row)) → OnlyRepository (inserted session r).1
  inserted-OnlyRepository (d, ok result) = wrap-OnlyRepository _
  inserted-OnlyRepository (d, throw connection_fail) = inr refl
  inserted-OnlyRepository (d, throw _) = inl refl
  inserted-OnlyRepository (d, ub) = tt

  -- Whatever the database throws, and the condition of `ReadWhere`, each operation of the repository
  -- that throws throws a `RepositoryException`, or a `ConnectionFailException`, which is no
  -- `std::exception` to a handler.
  pub repository-OnlyRepository :
      (id : ℕ) (condition : DbUser → Result Bool) (u : DbUser) (d : D)
      → OnlyRepository (read_by_id session id d).1
        × OnlyRepository (read_all session d).1
        × OnlyRepository (read_where session condition d).1
        × OnlyRepository (insert session u d).1
        × OnlyRepository (update_user_of session u d).1
        × OnlyRepository (delete_by_id_of session id d).1
        × OnlyRepository (delete session u d).1
  unfolding read_by_id read_all read_where insert update_user_of delete_by_id_of delete
  repository-OnlyRepository id condition u d = (
    wrap-OnlyRepository _,
    wrap-OnlyRepository _,
    read_where-OnlyRepository condition _ (wrap-OnlyRepository _),
    inserted-OnlyRepository _,
    wrap-OnlyRepository _,
    wrap-OnlyRepository _,
    wrap-OnlyRepository _,
  )
