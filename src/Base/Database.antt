-- ===== src/Base/Database.antt =====
-- What the services rely on of TypeORM and PostgreSQL: a query sees the rows of a table, a
-- statement changes them. The tables themselves are lists of rows in the services' store.
use Prim.Native.Nat.{ℕ}
use mathlib.Core.Path.{◌≡◌}
use mathlib.Core.Bool.{Bool, true, false}
use mathlib.Core.Option.{Option, none, some}
use mathlib.Core.List.{List, [], ◌∷◌, ◌++◌}
use slowchat.Base.Lists.{select, count_where, update_where, reject, upsert, any, Among}
use slowchat.Base.Action.{Action, settle}

pub record Database : Type 1 where
  -- repository.findOneBy(where): some row that matches
  pub find_one : {Row : Type 0} → (Row → Bool) → List Row → Option Row
  -- repository.findBy(where)
  pub find_by : {Row : Type 0} → (Row → Bool) → List Row → List Row
  -- repository.countBy(where)
  pub count_by : {Row : Type 0} → (Row → Bool) → List Row → ℕ
  -- repository.existsBy(where)
  pub exists_by : {Row : Type 0} → (Row → Bool) → List Row → Bool
  -- repository.save(row), with the test that two rows have the same primary key
  pub save : {Row : Type 0} → (Row → Row → Bool) → Row → List Row → List Row
  -- repository.insert(row), and save(row) where the key is generated
  pub insert : {Row : Type 0} → Row → List Row → List Row
  -- result.identifiers.length of insert().values(row).orIgnore(), for a row with its key given, by
  -- whether the row was inserted
  pub identifiers : Bool → ℕ
  -- UPDATE … SET … WHERE …
  pub update : {Row : Type 0} → (Row → Bool) → (Row → Row) → List Row → List Row
  -- DELETE FROM … WHERE …
  pub delete : {Row : Type 0} → (Row → Bool) → List Row → List Row
  -- dataSource.transaction(body)
  pub transaction : {S A : Type 0} → Action S A → Action S A
  -- A row that is found is in the table and matches; none is found only if none matches.
  pub find_one_none :
      {Row : Type 0} (p : Row → Bool) (rows : List Row)
      → find_one p rows ≡ none
      → any p rows ≡ false
  pub find_one_some :
      {Row : Type 0} (p : Row → Bool) (rows : List Row) (r : Row)
      → find_one p rows ≡ some r
      → p r ≡ true
  pub find_one_among :
      {Row : Type 0} (p : Row → Bool) (rows : List Row) (r : Row)
      → find_one p rows ≡ some r
      → Among r rows
  pub find_by_lem :
      {Row : Type 0} (p : Row → Bool) (rows : List Row) → find_by p rows ≡ select p rows
  pub count_by_lem :
      {Row : Type 0} (p : Row → Bool) (rows : List Row) → count_by p rows ≡ count_where p rows
  pub exists_by_lem :
      {Row : Type 0} (p : Row → Bool) (rows : List Row) → exists_by p rows ≡ any p rows
  pub save_lem :
      {Row : Type 0} (same : Row → Row → Bool) (r : Row) (rows : List Row)
      → save same r rows ≡ upsert same r rows
  pub insert_lem : {Row : Type 0} (r : Row) (rows : List Row) → insert r rows ≡ rows ++ r ∷ []
  pub update_lem :
      {Row : Type 0} (p : Row → Bool) (f : Row → Row) (rows : List Row)
      → update p f rows ≡ update_where p f rows
  pub delete_lem : {Row : Type 0} (p : Row → Bool) (rows : List Row) → delete p rows ≡ reject p rows
  pub transaction_lem :
      {S A : Type 0} (body : Action S A) (s : S) → transaction body s ≡ settle s (body s)
