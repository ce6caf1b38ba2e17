-- ===== src/Db/Always.antt =====
-- What every run of statements leaves, with one predicate where it succeeds and one where it fails.
use preamp.Base.{Option, none, some, Bool-cases, inl, inr}
use preamp.Db.{Tables, Run, Db, pure, ◌>>=◌, query, next_fault}
use preamp.Db.Keeps.{Keeps}

abbrev pub Ends : {A : Type 0} → (A → Tables → Type 0) → (Tables → Type 0) → Run × Option A → Type 0
Ends Q E (r, none) = E r.tables
Ends Q E (r, some a) = Q a r.tables

abbrev pub Always :
    {A : Type 0} → (Tables → Type 0) → Db A → (A → Tables → Type 0) → (Tables → Type 0) → Type 0
Always P m Q E = (s : Run) → P s.tables → Ends Q E (m s)

pub Always-pure :
    {A : Type 0} (P E : Tables → Type 0) (Q : A → Tables → Type 0) (a : A)
    → ((t : Tables) → P t → Q a t)
    → Always P (pure a) Q E
Always-pure P E Q a h s p = h s.tables p

pub Always-query :
    {A : Type 0} (P E : Tables → Type 0) (select : Tables → A)
    → ((t : Tables) → P t → E t)
    → Always P (query select) (λ _. P) E
unfolding query
Always-query P E select h s p = elim (Bool-cases (next_fault s.faults).0) [
  | inl e ↦ rw e (h s.tables p)
  | inr e ↦ rw e p
]

pub Always-bind :
    {A B : Type 0} (P E : Tables → Type 0) (R : A → Tables → Type 0) (Q : B → Tables → Type 0)
    (m : Db A) (f : A → Db B)
    → Always P m R E
    → ((a : A) → Always (R a) (f a) Q E)
    → Always P (m >>= f) Q E
Always-bind {A = A} {B = B} P E R Q m f hm hf s p = go (m s) (hm s p)
  where
    go :
        (x : Run × Option A)
        → Ends R E x
        → Ends Q E (elim x.1 as (λ _. Run × Option B) [ none ↦ (x.0, none) | some a ↦ f a x.0 ])
    go (u, none) e = e
    go (u, some a) r = hf a u r

-- A program of which nothing is said.
pub Always-any :
    {A : Type 0} (P : Tables → Type 0) (m : Db A) → Always P m (λ _ _. Unit {0}) (λ _. Unit {0})
Always-any {A = A} P m s p = go (m s)
  where
    go : (x : Run × Option A) → Ends (λ _ _. Unit {0}) (λ _. Unit {0}) x
    go (u, none) = tt
    go (u, some a) = tt

pub Always-Keeps :
    {A : Type 0} (P R : Tables → Type 0) (m : Db A)
    → Always P m (λ _. R) R
    → (s : Run) → P s.tables
    → R ((m s).0).tables
Always-Keeps {A = A} P R m h s p = go (m s) (h s p)
  where
    go : (x : Run × Option A) → Ends (λ _. R) R x → R (x.0).tables
    go (u, none) e = e
    go (u, some a) e = e

pub Keeps-Always : {A : Type 0} (R : Tables → Type 0) (m : Db A) → Keeps R m → Always R m (λ _. R) R
Keeps-Always {A = A} R m h s r = go (m s) (h s r)
  where
    go : (x : Run × Option A) → R (x.0).tables → Ends (λ _. R) R x
    go (u, none) e = e
    go (u, some a) e = e
