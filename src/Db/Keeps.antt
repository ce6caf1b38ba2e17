-- ===== src/Db/Keeps.antt =====
-- What every run of a handler's statements keeps of the tables, whether they fail or not.
use preamp.Base.{Bool, false, List, Option, none, some, ◌≡◌, Bool-cases, Option-cases, inl, inr}
use preamp.Db.{Tables, Run, Db, pure, ◌>>=◌, next_fault, execute, query}
use preamp.Db.Transaction.{Conn, in_transaction, roll_back, commit}
use preamp.Db.Handler.{on_write_conn}

module _ (R : Tables → Type 0) where
  abbrev pub Keeps : {A : Type 0} → Db A → Type 0
  Keeps m = (s : Run) → R s.tables → R ((m s).0).tables

  pub Keeps-pure : {A : Type 0} (a : A) → Keeps (pure a)
  Keeps-pure a s r = r

  pub Keeps-execute :
      (statement : Tables → Option Tables)
      → ((t t' : Tables) → R t → statement t ≡ some t' → R t')
      → Keeps (execute statement)
  unfolding execute
  Keeps-execute statement h s r = elim (Bool-cases (next_fault s.faults).0) [
    | inl e ↦ rw e r
    | inr e ↦ elim (Option-cases (statement s.tables)) [
      | inl f ↦ rw (e, f) r
      | inr (t, f) ↦ rw (e, f) (h s.tables t r f)
    ]
  ]

  pub Keeps-query : {A : Type 0} (select : Tables → A) → Keeps (query select)
  unfolding query
  Keeps-query select s r = r

  pub Keeps-bind :
      {A B : Type 0} (m : Db A) (f : A → Db B) → Keeps m → ((a : A) → Keeps (f a)) → Keeps (m >>= f)
  Keeps-bind {A = A} {B = B} m f hm hf s r = go (m s) (hm s r)
    where
      go :
          (x : Run × Option A)
          → R (x.0).tables
          → R
              ((elim x.1 as (λ _. Run × Option B) [ none ↦ (x.0, none) | some a ↦ f a x.0 ]).0
                ).tables
      go (u, none) q = q
      go (u, some a) q = hf a u q

  roll_back-R : (t : Tables) (r : Run) → R t → R r.tables → R (roll_back t r).tables
  unfolding roll_back
  roll_back-R t r ht hr = elim (Bool-cases (next_fault r.faults).0) [
    | inl e ↦ rw e hr
    | inr e ↦ rw e ht
  ]

  commit-R : (t : Tables) (r : Run) → R r.tables → R ((commit t r).0).tables
  unfolding commit
  commit-R t r hr = elim (Bool-cases (next_fault r.faults).0) [ inl e ↦ rw e hr | inr e ↦ rw e hr ]

  in_transaction-R :
      (body : Db (Unit {0})) (t : Tables) (faults : List Bool)
      → Keeps body
      → R t
      → R ((in_transaction body t faults).0).tables
  unfolding in_transaction
  in_transaction-R body t faults h r = elim (Bool-cases (next_fault faults).0) [
    | inl e ↦ rw e r
    | inr e ↦
        let s : Run = record { tables = t; faults = (next_fault faults).1 } in
        rw e (ended (body s) (h s r))
  ]
    where
      ended :
          (x : Run × Option (Unit {0}))
          → R (x.0).tables
          → R
              ((elim x.1 as (λ _. Conn × Bool) [
                | none ↦ (roll_back t x.0, false)
                | some _ ↦ commit t x.0
              ]).0
                ).tables
      ended (u, none) q = roll_back-R t u r q
      ended (u, some a) q = commit-R t u q

  -- The tables that the connection shows, in a transaction that is still open as well.
  pub on_write_conn-R :
      (body : Db (Unit {0})) (t : Tables) (faults : List Bool)
      → Keeps body
      → R t
      → R ((on_write_conn body t faults).0).tables
  unfolding on_write_conn
  on_write_conn-R body t faults h r = elim (Bool-cases (next_fault faults).0) [
    | inl e ↦ rw e r
    | inr e ↦ rw e (in_transaction-R body t (next_fault faults).1 h r)
  ]
