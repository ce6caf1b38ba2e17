-- ===== src/Auth/RateLimit.antt =====
-- checkRateLimit, recordAuthFailure and clearAuthFailure of internal/api/auth.go. The store is the
-- `sync.Map` from an address to its failures; times are nanoseconds, and a call reads the clock once.
use preamp.Base.{ℕ, Bool, List, none, some, ltb, leb, if◌then◌else◌, ◌+◌}
use preamp.Base.Dict.{lookup, insert, delete}
use preamp.Base.Text.{Bytes}

abbrev pub auth_failure_limit : ℕ
auth_failure_limit = 10

-- Five minutes.
abbrev pub auth_failure_window : ℕ
auth_failure_window = 300000000000

pub record FailureEntry : Type 0 where
  pub count : ℕ
  pub reset_at : ℕ

abbrev pub Failures : Type 0
Failures = List (Bytes × FailureEntry)

-- `&failureEntry{}`, which LoadOrStore puts in for an address that is not there.
abbrev pub fresh_entry : FailureEntry
fresh_entry = record { count = 0; reset_at = 0 }

unfoldable pub load_or_store : Bytes → Failures → FailureEntry
load_or_store ip failures = elim (lookup ip failures) [ none ↦ fresh_entry | some e ↦ e ]

-- The entry behind checkRateLimit: a window that is over starts anew, with no failures.
unfoldable pub rolled : ℕ → FailureEntry → FailureEntry
rolled now e =
    if ltb e.reset_at now then record { count = 0; reset_at = now + auth_failure_window } else e

unfoldable pub check_rate_limit : Bytes → ℕ → Failures → Failures × Bool
unfolding rolled load_or_store
check_rate_limit ip now failures =
    let e = rolled now (load_or_store ip failures) in
    (insert ip e failures, leb auth_failure_limit e.count)

unfoldable pub failed_once : ℕ → FailureEntry → FailureEntry
failed_once now e =
    if ltb e.reset_at now
    then record { count = 1; reset_at = now + auth_failure_window }
    else record { count = e.count + 1; reset_at = e.reset_at }

unfoldable pub record_auth_failure : Bytes → ℕ → Failures → Failures
unfolding failed_once load_or_store
record_auth_failure ip now failures =
    insert ip (failed_once now (load_or_store ip failures)) failures

unfoldable pub clear_auth_failure : Bytes → Failures → Failures
clear_auth_failure ip failures = delete ip failures
