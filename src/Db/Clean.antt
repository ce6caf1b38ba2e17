-- ===== src/Db/Clean.antt =====
-- What a program of statements does when the engine fails none of them: it succeeds, and leaves tables
-- of which a predicate holds.
use preamp.Base.{[], Option, none, some, ◌≡◌, refl, ◌∙◌, ap}
use preamp.Db.{Tables, Run, Db, pure, ◌>>=◌, ◌>>◌, next_fault, execute, returning, query}

abbrev pub unfailing : Tables → Run
unfailing t = record { tables = t; faults = [] }

abbrev pub Clean : {A : Type 0} → (Tables → Type 0) → Db A → (A → Tables → Type 0) → Type 0
Clean {A = A} P m Q =
    (t : Tables)
    → P t
    → (t' : Tables) × (a : A) × (m (unfailing t) ≡ (unfailing t', some a)) × Q a t'

pub Clean-pure :
    {A : Type 0} (P : Tables → Type 0) (Q : A → Tables → Type 0) (a : A)
    → ((t : Tables) → P t → Q a t)
    → Clean P (pure a) Q
Clean-pure P Q a h t p = (t, a, refl, h t p)

pub Clean-execute :
    (P Q : Tables → Type 0) (statement : Tables → Option Tables)
    → ((t : Tables) → P t → (t' : Tables) × (statement t ≡ some t') × Q t')
    → Clean P (execute statement) (λ _. Q)
unfolding execute next_fault
Clean-execute P Q statement h t p = let (t', e, q) = h t p in (t', tt, rw e refl, q)

pub Clean-returning :
    {A : Type 0} (P : Tables → Type 0) (Q : A → Tables → Type 0)
    (statement : Tables → Option (Tables × A))
    → ((t : Tables) → P t → (t' : Tables) × (a : A) × (statement t ≡ some (t', a)) × Q a t')
    → Clean P (returning statement) Q
unfolding returning next_fault
Clean-returning P Q statement h t p = let (t', a, e, q) = h t p in (t', a, rw e refl, q)

pub Clean-query :
    {A : Type 0} (P : Tables → Type 0) (Q : A → Tables → Type 0) (select : Tables → A)
    → ((t : Tables) → P t → Q (select t) t)
    → Clean P (query select) Q
unfolding query next_fault
Clean-query P Q select h t p = (t, select t, refl, h t p)

pub bind_run :
    {A B : Type 0} (m : Db A) (f : A → Db B) (s u : Run) (a : A)
    → m s ≡ (u, some a)
    → (m >>= f) s ≡ f a u
bind_run {A = A} {B = B} m f s u a e =
    ap
      (λ (x : Run × Option A). elim x.1 as (λ _. Run × Option B) [
        | none ↦ (x.0, none)
        | some b ↦ f b x.0
      ])
      e

pub Clean-bind :
    {A B : Type 0} (P : Tables → Type 0) (R : A → Tables → Type 0) (Q : B → Tables → Type 0)
    (m : Db A) (f : A → Db B)
    → Clean P m R
    → ((a : A) → Clean (R a) (f a) Q)
    → Clean P (m >>= f) Q
Clean-bind P R Q m f hm hf t p =
    let (u, a, e, r) = hm t p in
    let (v, b, e', q) = hf a u r in (v, b, bind_run m f (unfailing t) (unfailing u) a e ∙ e', q)

pub Clean-then :
    {B : Type 0} (P R : Tables → Type 0) (Q : B → Tables → Type 0) (m : Db (Unit {0})) (k : Db B)
    → Clean P m (λ _. R)
    → Clean R k Q
    → Clean P (m >> k) Q
Clean-then P R Q m k hm hk = Clean-bind P (λ _. R) Q m (λ _. k) hm (λ _. hk)

pub Clean-weaken :
    {A : Type 0} (P : Tables → Type 0) (Q R : A → Tables → Type 0) (m : Db A)
    → ((a : A) (t : Tables) → Q a t → R a t)
    → Clean P m Q
    → Clean P m R
Clean-weaken P Q R m h c t p = let (u, a, e, q) = c t p in (u, a, e, h a u q)
