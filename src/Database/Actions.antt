-- ===== src/Database/Actions.antt =====
-- An asynchronous call on the tables: what was written before an error stays written.
use ddrive.Prelude.{Bool, Option, none, some, String, if◌then◌else◌}
use ddrive.Storage.Rows.{Result, ok, err}
use ddrive.Database.Rows.{Db}

abbrev pub Action : Type 0 → Type 0
Action A = Db → Result A × Db

abbrev pub Done : Type 0
Done = Unit

module _ {A : Type 0} where
  abbrev pub pure : A → Action A
  pure a db = (ok a, db)

  abbrev pub raise : String → Action A
  raise e db = (err e, db)

  abbrev pub gets : (Db → A) → Action A
  gets f db = (ok (f db), db)

  -- `if (!row) throw new Error(e)`
  abbrev pub or_raise : Option A → String → Action A
  or_raise none e = raise e
  or_raise (some a) e = pure a

infixl 5 ◌>>=◌ ◌>>◌
abbrev pub ◌>>=◌ : {A B : Type 0} → Action A → (A → Action B) → Action B
◌>>=◌ m f db = let (r, db') = m db in elim r [ ok a ↦ f a db' | err e ↦ (err e, db') ]

abbrev pub ◌>>◌ : {A B : Type 0} → Action A → Action B → Action B
m >> k = m >>= λ _. k

-- `if (test) throw new Error(e)`
abbrev pub raise_if : Bool → String → Action Done
raise_if test e db = (if test then err e else ok tt, db)

abbrev pub modify : (Db → Db) → Action Done
modify f db = (ok tt, f db)
