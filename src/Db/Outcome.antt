-- ===== src/Db/Outcome.antt =====
-- The replies of the write handlers of internal/api, by what happens to the transaction.
use mathlib.Core.Path.{subst}
use preamp.Base.{
  ℕ, Bool, true, false, List, none, if◌then◌else◌, ◌≡◌, refl, arith, ◌⊎◌, inl, inr, Bool-cases,
}
use preamp.Db.{Tables, Db, next_fault}
use preamp.Db.Transaction.{Conn, idle, committed, in_transaction, in_transaction-failed}
use preamp.Db.Ensures.{Does, Settles, faulty, in_transaction-Settles, next_fault-faulty}
use preamp.Db.Handler.{Reply, refused, done, answer, on_write_conn}

-- The answer is ok and a commit of tables of which Q holds, or the engine failed a statement, and the
-- answer is error 0 and the committed tables are those before.
abbrev pub Answered : (Tables → Type 0) → Tables → List Bool → Conn × Reply → Type 0
Answered Q before faults (conn, reply) =
    ((reply ≡ done) × (conn.saved ≡ none) × Q conn.tables)
    ⊎ ((reply ≡ refused 0) × (committed conn ≡ before) × (faulty faults ≡ true))

pub answer-Answered :
    (Q : Tables → Type 0) (before : Tables) (faults : List Bool) (x : Conn × Bool)
    → Settles Q before faults x
    → Answered Q before faults (answer x)
answer-Answered Q before faults (conn, good) (inl (g, s, q, f)) = rw g (inl (refl, s, q))
answer-Answered Q before faults (conn, good) (inr (g, s, f)) = rw g (inr (refl, s, f))

widen :
    (Q : Tables → Type 0) (before : Tables) (few many : List Bool) (x : Conn × Bool)
    → (faulty few ≡ true → faulty many ≡ true)
    → Settles Q before few x
    → Settles Q before many x
widen Q before few many (conn, good) h (inl (g, s, q, f)) = inl (g, s, q, λ x. h (f x))
widen Q before few many (conn, good) h (inr (g, s, f)) = inr (g, s, h f)

pub on_write_conn-Settles :
    (P Q : Tables → Type 0) (body : Db (Unit {0})) (t : Tables) (faults : List Bool)
    → Does P body (λ _. Q)
    → P t
    → Settles Q t faults (on_write_conn body t faults)
unfolding on_write_conn committed
on_write_conn-Settles P Q body t faults h p = elim (Bool-cases (next_fault faults).0) [
  | inl e ↦ rw e (inr (refl, refl, (next_fault-faulty faults).0 e))
  | inr e ↦
      let rest = (next_fault faults).1 in
      rw e (
        widen Q t rest faults (in_transaction body t rest) (next_fault-faulty faults).1
          (in_transaction-Settles P Q body t rest h p))
]

-- Where WriteConn or a statement fails, the committed tables are those before.
pub on_write_conn-failed :
    (body : Db (Unit {0})) (t : Tables) (faults : List Bool)
    → (on_write_conn body t faults).1 ≡ false
    → committed (on_write_conn body t faults).0 ≡ t
unfolding on_write_conn committed
on_write_conn-failed body t faults h = elim (Bool-cases (next_fault faults).0) [
  | inl e ↦ rw e refl
  | inr e ↦
      let rest = (next_fault faults).1 in
      let h' =
        subst (λ b. (if b then (idle t rest, false) else in_transaction body t rest).1 ≡ false) e
          h in
      rw e (in_transaction-failed body t rest h')
]

-- A request that is refused leaves the committed tables as they were.
abbrev pub Atomic : (Tables → List Bool → Conn × Reply) → Type 0
Atomic handler =
    (t : Tables) (faults : List Bool) (code : ℕ)
    → (handler t faults).1 ≡ refused code
    → committed (handler t faults).0 ≡ t

pub answer-refused :
    (t : Tables) (code : ℕ) (x : Conn × Bool)
    → (x.1 ≡ false → committed x.0 ≡ t)
    → (answer x).1 ≡ refused code
    → committed (answer x).0 ≡ t
answer-refused t code (conn, true) h e = ground (arith, e)
answer-refused t code (conn, false) h e = h refl
