-- ===== src/Db/Ensures.antt =====
-- What a handler's statements do when the constraints hold: they end in the tables that a predicate
-- describes, unless the engine fails one of them.
use preamp.Base.{
  ◌⊎◌, inl, inr, Bool, true, false, ◌||◌, List, [], ◌∷◌, Option, none, some, ◌≡◌, arith, Bool-cases,
  inl, inr, refl,
}
use preamp.Db.Transaction.{Conn, commit, roll_back, in_transaction, committed}
use preamp.Db.{Tables, Run, Db, ◌>>=◌, next_fault, execute, query, pure, ◌>>◌}

-- The engine fails some statement.
unfoldable pub faulty : List Bool → Bool
faulty [] = false
faulty (b ∷ bs) = b || faulty bs

module _ {A : Type 0} where
  abbrev pub Ensures : List Bool → (A → Tables → Type 0) → Run × Option A → Type 0
  Ensures before Q (r, none) = faulty before ≡ true
  Ensures before Q (r, some a) = Q a r.tables × (faulty r.faults ≡ true → faulty before ≡ true)

  -- From tables that satisfy P, and whatever the engine fails.
  abbrev pub Does : (Tables → Type 0) → Db A → (A → Tables → Type 0) → Type 0
  Does P m Q = (s : Run) → P s.tables → Ensures s.faults Q (m s)

pub next_fault-faulty :
    (bs : List Bool)
    → ((next_fault bs).0 ≡ true → faulty bs ≡ true)
      × (faulty (next_fault bs).1 ≡ true → faulty bs ≡ true)
unfolding next_fault faulty
next_fault-faulty [] = ground arith
next_fault-faulty (b ∷ bs) = ground arith

pub Does-execute :
    (P Q : Tables → Type 0) (statement : Tables → Option Tables)
    → ((t : Tables) → P t → (t' : Tables) × (statement t ≡ some t') × Q t')
    → Does P (execute statement) (λ _. Q)
unfolding execute
Does-execute P Q statement h s p = elim (Bool-cases (next_fault s.faults).0) [
  | inl e ↦ rw e ((next_fault-faulty s.faults).0 e)
  | inr e ↦ let (t', et, q) = h s.tables p in rw (e, et) (q, (next_fault-faulty s.faults).1)
]

pub Does-query :
    {A : Type 0} (P : Tables → Type 0) (Q : A → Tables → Type 0) (select : Tables → A)
    → ((t : Tables) → P t → Q (select t) t)
    → Does P (query select) Q
unfolding query
Does-query P Q select h s p = elim (Bool-cases (next_fault s.faults).0) [
  | inl e ↦ rw e ((next_fault-faulty s.faults).0 e)
  | inr e ↦ rw e (h s.tables p, (next_fault-faulty s.faults).1)
]

pub Does-bind :
    {A B : Type 0} (P : Tables → Type 0) (R : A → Tables → Type 0) (Q : B → Tables → Type 0)
    (m : Db A) (f : A → Db B)
    → Does P m R
    → ((a : A) → Does (R a) (f a) Q)
    → Does P (m >>= f) Q
Does-bind {A = A} {B = B} P R Q m f hm hf s p = go (m s) (hm s p)
  where
    go :
        (x : Run × Option A)
        → Ensures s.faults R x
        → Ensures s.faults Q (elim x.1 [ none ↦ (x.0, none) | some a ↦ f a x.0 ])
    go (r, none) e = e
    go (r, some a) (q, back) = widen (f a r) (hf a r q)
      where
        widen : (y : Run × Option B) → Ensures r.faults Q y → Ensures s.faults Q y
        widen (u, none) e = back e
        widen (u, some b) (qb, e) = (qb, λ x. back (e x))

pub Does-pure :
    {A : Type 0} (P : Tables → Type 0) (Q : A → Tables → Type 0) (a : A)
    → ((t : Tables) → P t → Q a t)
    → Does P (pure a) Q
Does-pure P Q a h s p = (h s.tables p, λ x. x)

pub Does-weaken :
    {A : Type 0} (P : Tables → Type 0) (Q R : A → Tables → Type 0) (m : Db A)
    → ((a : A) (t : Tables) → Q a t → R a t)
    → Does P m Q
    → Does P m R
Does-weaken {A = A} P Q R m h d s p = go (m s) (d s p)
  where
    go : (x : Run × Option A) → Ensures s.faults Q x → Ensures s.faults R x
    go (r, none) e = e
    go (r, some a) (q, e) = (h a r.tables q, e)

-- One statement and what follows it.
pub Does-then :
    {B : Type 0} (P R : Tables → Type 0) (Q : B → Tables → Type 0) (m : Db (Unit {0})) (k : Db B)
    → Does P m (λ _. R)
    → Does R k Q
    → Does P (m >> k) Q
Does-then P R Q m k hm hk = Does-bind P (λ _. R) Q m (λ _. k) hm (λ _. hk)

-- A transaction whose statements do what Q says commits it, or fails at a fault and commits nothing.
abbrev pub Settles : (Tables → Type 0) → Tables → List Bool → Conn × Bool → Type 0
Settles Q before faults (conn, good) =
    ((good ≡ true)
      × (conn.saved ≡ none)
      × Q conn.tables
      × (faulty conn.faults ≡ true → faulty faults ≡ true))
    ⊎ ((good ≡ false) × (committed conn ≡ before) × (faulty faults ≡ true))

commit-Settles :
    (Q : Tables → Type 0) (t : Tables) (faults : List Bool) (r : Run)
    → Q r.tables
    → (faulty r.faults ≡ true → faulty faults ≡ true)
    → Settles Q t faults (commit t r)
unfolding commit committed
commit-Settles Q t faults r q back = elim (Bool-cases (next_fault r.faults).0) [
  | inl e ↦ rw e (inr (refl, refl, back ((next_fault-faulty r.faults).0 e)))
  | inr e ↦ rw e (inl (refl, refl, q, λ x. back ((next_fault-faulty r.faults).1 x)))
]

roll_back-Settles :
    (Q : Tables → Type 0) (t : Tables) (faults : List Bool) (r : Run)
    → faulty faults ≡ true
    → Settles Q t faults (roll_back t r, false)
unfolding roll_back committed
roll_back-Settles Q t faults r f = elim (Bool-cases (next_fault r.faults).0) [
  | inl e ↦ rw e (inr (refl, refl, f))
  | inr e ↦ rw e (inr (refl, refl, f))
]

pub in_transaction-Settles :
    (P Q : Tables → Type 0) (body : Db (Unit {0})) (t : Tables) (faults : List Bool)
    → Does P body (λ _. Q)
    → P t
    → Settles Q t faults (in_transaction body t faults)
unfolding in_transaction committed
in_transaction-Settles P Q body t faults h p = elim (Bool-cases (next_fault faults).0) [
  | inl e ↦ rw e (inr (refl, refl, (next_fault-faulty faults).0 e))
  | inr e ↦ rw e (ended _ (h (record { tables = t; faults = (next_fault faults).1 }) p))
]
  where
    ended :
        (x : Run × Option (Unit {0}))
        → Ensures (next_fault faults).1 (λ _. Q) x
        → Settles Q t faults (elim x.1 [ none ↦ (roll_back t x.0, false) | some _ ↦ commit t x.0 ])
    ended (r, none) f = roll_back-Settles Q t faults r ((next_fault-faulty faults).1 f)
    ended (r, some a) (q, back) =
        commit-Settles Q t faults r q (λ x. (next_fault-faulty faults).1 (back x))
