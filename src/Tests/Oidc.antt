-- ===== src/Tests/Oidc.antt =====
-- An OIDC login, its callback, and a second callback with the same state.
use preamp.Base.{List, [], ◌∷◌, ◌++◌, none, some, ◌≡◌, refl, arith}
use preamp.Base.Text.{codes, bytes_eq}
use preamp.Oidc.{
  Provider, Callback, failed, invalid_state, LoginEvent, started, returned, logged_out, signed_in,
  logging_out, pending_reaped, sessions_reaped, redeem, oidc_callback, after,
}
use preamp.Oidc.Trace.{pending_of, oidc_callback-pending_of, oidc_callback_once}
use preamp.Oidc.Login.{IsSignedIn, get-IsSignedIn}
use preamp.Session.{Session, get, new_session}

-- The user "carol" with any code.
abbrev carol : Provider
carol = record {
  exchange = λ code verifier. some (some code);
  verify = λ raw. some (some (record { preferred_username = []; sub = codes "carol" }));
}

abbrev earlier : List LoginEvent
earlier = started (codes "s") (codes "v") 1 ∷ []

abbrev later : List LoginEvent
later =
    pending_reaped 700000000000
    ∷ started (codes "t") (codes "w") 9
    ∷ logged_out (codes "2")
    ∷ logging_out (codes "2") (some (codes "z")) 8
    ∷ sessions_reaped 7
    ∷ []

abbrev events : List LoginEvent
events = later ++ (returned carol (codes "1") (codes "s") (codes "c") ∷ earlier)

-- A login with another state comes between the callback and its session.
abbrev sessions_made : List LoginEvent
sessions_made =
    later
    ++ (signed_in (codes "1") (codes "x") 5
        ∷ started (codes "o") (codes "p") 4
        ∷ returned carol (codes "1") (codes "s") (codes "c")
        ∷ earlier)

oidc_callback-pending_of_example :
    oidc_callback carol (codes "s") (codes "c") (after earlier).pending
    ≡ (elim (pending_of (codes "s") earlier) as (λ _. Callback) [
      | none ↦ failed invalid_state
      | some pa ↦ redeem carol (codes "c") pa.code_verifier
    ])
oidc_callback-pending_of_example = oidc_callback-pending_of carol (codes "s") (codes "c") earlier

oidc_callback_once_example :
    oidc_callback carol (codes "s") (codes "d") (after events).pending ≡ failed invalid_state
unfolding bytes_eq
oidc_callback_once_example =
    oidc_callback_once carol carol (codes "1") (codes "s") (codes "c") (codes "d") later earlier
      (tt, (refl, (tt, (tt, (tt, tt)))))

abbrev carols : Session
carols = new_session (codes "x") (codes "carol") 5

found : get (some (codes "x")) 20 (after sessions_made).sessions ≡ some carols
unfolding get preamp.Session.unexpired preamp.Base.Dict.lookup after preamp.Oidc.login_step
    preamp.Oidc.handle_logout preamp.Session.reap preamp.Base.Dict.purge preamp.Oidc.handle_callback
    oidc_callback preamp.Oidc.login_handler preamp.Base.Dict.insert bytes_eq redeem
    preamp.Session.create preamp.Oidc.sign_in preamp.Oidc.sign_out preamp.Base.Dict.delete
found = refl

get-IsSignedIn_example : IsSignedIn (codes "x") (codes "carol") sessions_made
get-IsSignedIn_example = get-IsSignedIn sessions_made (codes "x") 20 carols found
