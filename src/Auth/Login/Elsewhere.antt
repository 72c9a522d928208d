-- ===== src/Auth/Login/Elsewhere.antt =====
-- Where a callback of oauth.go redirects to if the address to return to loses a character in its cookie.
use Prim.Native.String.{◌∷◌, char_at}
use spinup.Prelude.{◌≡◌, refl, ap, ◌∙◌, ℕ, String, true, some, map, Result, ok}
use spinup.Text.{has_prefix}
use spinup.Session.{Session, MemoryStore}
use spinup.Auth.Login.{
  return_target, return_to_or_root, established, handle_login, handle_callback, callback_reply,
}
use spinup.Auth.Login.Completed.{sent}
use spinup.Auth.Oauth.{AuthRequest, Library, redirected, cookie_of, OAuth, return_to_cookie_name}

-- "/;/" and a text, and "//" and a text.
abbrev pub asked_for : String → String
asked_for host = char_at "/" 0 ∷ char_at ";" 0 ∷ char_at "/" 0 ∷ host

abbrev pub other_host : String → String
other_host host = char_at "/" 0 ∷ char_at "/" 0 ∷ host

return_to_or_root-semicolon :
    (lib : Library) (host : String) (r : AuthRequest)
    → r.query "returnTo" ≡ asked_for host
    → lib.parses (asked_for host) ≡ true
    → return_to_or_root lib r ≡ asked_for host
unfolding return_to_or_root has_prefix
return_to_or_root-semicolon lib host r asks parsed = rw asks (rw parsed refl)

-- If cookies carry "/;/" and a text as "//" and the text, a login that is asked to return there, and
-- whose callback establishes a session, redirects to "//" and the text, which browsers read as the
-- address of another host.
pub login-elsewhere :
    (carry : String → String) (oa : OAuth) (lib : Library) (start now : ℕ)
    (state_bytes verifier_bytes host : String) (bytes : Result String String)
    (asked back : AuthRequest) (s : Session) (m : MemoryStore)
    → asked.query "returnTo" ≡ asked_for host
    → lib.parses (asked_for host) ≡ true
    → carry (asked_for host) ≡ other_host host
    → back.cookies
      ≡ map (sent carry) (handle_login oa lib start (ok state_bytes) (ok verifier_bytes) asked).1
    → established lib now bytes back ≡ ok s
    → (handle_callback oa lib now bytes back m).0.0 ≡ redirected (other_host host)
unfolding handle_callback
login-elsewhere carry oa lib start now state_bytes verifier_bytes host bytes asked back s m asks
      parsed loses cookies done =
    let set : cookie_of return_to_cookie_name back.cookies
        ≡ some (carry (return_to_or_root lib asked)) =
      ap (cookie_of return_to_cookie_name) cookies ∙ unfold handle_login cookie_of in refl in
    let lost : carry (return_to_or_root lib asked) ≡ other_host host =
      ap carry (return_to_or_root-semicolon lib host asked asks parsed) ∙ loses in
    let shown : return_target (some (other_host host)) ≡ other_host host =
      unfold has_prefix in refl in
    ap (λ x. (callback_reply oa back m x).0.0) done
    ∙ ap (λ o. redirected (return_target o)) (set ∙ ap some lost)
    ∙ ap redirected shown
