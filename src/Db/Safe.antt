-- ===== src/Db/Safe.antt =====
-- What a program of statements does whatever the engine fails: it succeeds and leaves tables of which a
-- predicate holds, or it fails, which takes a fault.
use preamp.Base.{
  Bool, true, false, List, [], ◌∷◌, Option, none, some, ◌≡◌, refl, ◌∙◌, ap, Bool-cases, ◌⊎◌, inl,
  inr, arith,
}
use preamp.Db.{Tables, Run, Db, pure, ◌>>=◌, ◌>>◌, next_fault, execute, returning, query}
use preamp.Db.Clean.{Clean, bind_run, unfailing}

-- No fault is to come.
abbrev pub is_calm : List Bool → Bool
is_calm [] = true
is_calm (b ∷ bs) = false

abbrev Done : {A : Type 0} → Db A → Run → (A → Tables → Type 0) → Type 0
Done {A = A} m s Q =
    (s' : Run) × (a : A) × (m s ≡ (s', some a))
    × Q a s'.tables
    × (is_calm s.faults ≡ true → is_calm s'.faults ≡ true)

abbrev pub Failed : {A : Type 0} → Db A → Run → Type 0
Failed m s = (s' : Run) × (m s ≡ (s', none)) × (is_calm s.faults ≡ false)

abbrev pub Safe : {A : Type 0} → (Tables → Type 0) → Db A → (A → Tables → Type 0) → Type 0
Safe P m Q = (s : Run) → P s.tables → Done m s Q ⊎ Failed m s

next_fault-is_calm : (bs : List Bool) → is_calm bs ≡ true → is_calm (next_fault bs).1 ≡ true
unfolding next_fault
next_fault-is_calm [] h = refl
next_fault-is_calm (b ∷ bs) h = ground (arith, h)

is_calm-fault : (bs : List Bool) → (next_fault bs).0 ≡ true → is_calm bs ≡ false
unfolding next_fault
is_calm-fault [] h = ground (arith, h)
is_calm-fault (b ∷ bs) h = refl

pub Safe-pure :
    {A : Type 0} (P : Tables → Type 0) (Q : A → Tables → Type 0) (a : A)
    → ((t : Tables) → P t → Q a t)
    → Safe P (pure a) Q
Safe-pure P Q a h s p = inl (s, a, refl, h s.tables p, λ e. e)

pub Safe-execute :
    (P Q : Tables → Type 0) (statement : Tables → Option Tables)
    → ((t : Tables) → P t → (t' : Tables) × (statement t ≡ some t') × Q t')
    → Safe P (execute statement) (λ _. Q)
unfolding execute
Safe-execute P Q statement h s p = elim (Bool-cases (next_fault s.faults).0) [
  | inl e ↦ inr (
    record { tables = s.tables; faults = (next_fault s.faults).1 },
    rw e refl,
    is_calm-fault s.faults e,
  )
  | inr e ↦
      let (t', k, q) = h s.tables p in
      inl (
        record { tables = t'; faults = (next_fault s.faults).1 },
        tt,
        rw (e, k) refl,
        q,
        next_fault-is_calm s.faults,
      )
]

pub Safe-returning :
    {A : Type 0} (P : Tables → Type 0) (Q : A → Tables → Type 0)
    (statement : Tables → Option (Tables × A))
    → ((t : Tables) → P t → (t' : Tables) × (a : A) × (statement t ≡ some (t', a)) × Q a t')
    → Safe P (returning statement) Q
unfolding returning
Safe-returning P Q statement h s p = elim (Bool-cases (next_fault s.faults).0) [
  | inl e ↦ inr (
    record { tables = s.tables; faults = (next_fault s.faults).1 },
    rw e refl,
    is_calm-fault s.faults e,
  )
  | inr e ↦
      let (t', a, k, q) = h s.tables p in
      inl (
        record { tables = t'; faults = (next_fault s.faults).1 },
        a,
        rw (e, k) refl,
        q,
        next_fault-is_calm s.faults,
      )
]

pub Safe-query :
    {A : Type 0} (P : Tables → Type 0) (Q : A → Tables → Type 0) (select : Tables → A)
    → ((t : Tables) → P t → Q (select t) t)
    → Safe P (query select) Q
unfolding query
Safe-query P Q select h s p = elim (Bool-cases (next_fault s.faults).0) [
  | inl e ↦ inr (
    record { tables = s.tables; faults = (next_fault s.faults).1 },
    rw e refl,
    is_calm-fault s.faults e,
  )
  | inr e ↦ inl (
    record { tables = s.tables; faults = (next_fault s.faults).1 },
    select s.tables,
    rw e refl,
    h s.tables p,
    next_fault-is_calm s.faults,
  )
]

bind_failed :
    {A B : Type 0} (m : Db A) (f : A → Db B) (s u : Run) → m s ≡ (u, none) → (m >>= f) s ≡ (u, none)
bind_failed {A = A} {B = B} m f s u e =
    ap
      (λ (x : Run × Option A). elim x.1 as (λ _. Run × Option B) [
        | none ↦ (x.0, none)
        | some b ↦ f b x.0
      ])
      e

calm_false : (b c : Bool) → (b ≡ true → c ≡ true) → c ≡ false → b ≡ false
calm_false b c h e = ground (arith, h, e)

pub Safe-bind :
    {A B : Type 0} (P : Tables → Type 0) (R : A → Tables → Type 0) (Q : B → Tables → Type 0)
    (m : Db A) (f : A → Db B)
    → Safe P m R
    → ((a : A) → Safe (R a) (f a) Q)
    → Safe P (m >>= f) Q
Safe-bind P R Q m f hm hf s p = elim (hm s p) [
  | inr (u, e, c) ↦ inr (u, bind_failed m f s u e, c)
  | inl (u, a, e, r, c) ↦ elim (hf a u r) [
    | inl (v, b, e', q, c') ↦ inl (v, b, bind_run m f s u a e ∙ e', q, λ k. c' (c k))
    | inr (v, e', c') ↦
        inr (v, bind_run m f s u a e ∙ e', calm_false (is_calm s.faults) (is_calm u.faults) c c')
  ]
]

pub Safe-then :
    {B : Type 0} (P R : Tables → Type 0) (Q : B → Tables → Type 0) (m : Db (Unit {0})) (k : Db B)
    → Safe P m (λ _. R)
    → Safe R k Q
    → Safe P (m >> k) Q
Safe-then P R Q m k hm hk = Safe-bind P (λ _. R) Q m (λ _. k) hm (λ _. hk)

pub Safe-weaken :
    {A : Type 0} (P : Tables → Type 0) (Q R : A → Tables → Type 0) (m : Db A)
    → ((a : A) (t : Tables) → Q a t → R a t)
    → Safe P m Q
    → Safe P m R
Safe-weaken P Q R m h c s p = elim (c s p) [
  | inl (u, a, e, q, k) ↦ inl (u, a, e, h a u.tables q, k)
  | inr f ↦ inr f
]

-- Without faults it succeeds.
pub Safe-Clean :
    {A : Type 0} (P : Tables → Type 0) (Q : A → Tables → Type 0) (m : Db A)
    → Safe P m Q
    → Clean P m Q
Safe-Clean P Q m c t p = elim (c (unfailing t) p) [
  | inl (u, a, e, q, k) ↦ (
    u.tables,
    a,
    e ∙ ap (λ l. (record { tables = u.tables; faults = l }, some a)) (calm_nil u.faults (k refl)),
    q,
  )
  | inr (u, e, k) ↦ ground (arith, k)
]
  where
    calm_nil : (l : List Bool) → is_calm l ≡ true → l ≡ []
    calm_nil [] h = refl
    calm_nil (b ∷ bs) h = ground (arith, h)
