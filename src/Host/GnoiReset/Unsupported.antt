-- ===== src/Host/GnoiReset/Unsupported.antt =====
-- The module never resets anything: every request ends where its arguments are parsed.
use sonic_host_services.Base.{
  zero, suc, Bool, false, ◌&&◌, Option, none, some, List, [], ◌∷◌, ◌≡◌, refl, arith, ap, ◌∙◌,
  if◌then◌else◌,
}
use sonic_host_services.Host.GnoiReset.{
  ResetRequest, check_request, Loaded, raises, value_error, object, GnoiReset, Reply, Response,
  Detail, issue_reset, go_on, parse_arguments, populate_reset_response, normalize,
  zero_fill_unsupported, other, init, parse_failed, zero_fill_is_unsupported, start_is_unsupported,
}

-- A sequence of requests, each with whether a thread could start.
abbrev pub requests : List (Bool × Loaded) → GnoiReset → GnoiReset
requests [] g = g
requests ((starts, loaded) ∷ more) g = requests more (issue_reset starts loaded g).0

-- The reply that a request gets; `none` is an exception.
abbrev pub answer : Loaded → Option Reply
answer raises = none
answer value_error = some (0, (other, parse_failed))
answer (object raw) = some (
  0,
  if (normalize raw).factory_os_set && (normalize raw).zero_fill_set
      then (zero_fill_unsupported, zero_fill_is_unsupported)
      else (other, start_is_unsupported),
)

check_request-reply :
    (request : ResetRequest) (g : GnoiReset)
    → ((check_request request g).1 ≡ (
      0,
      if request.factory_os_set && request.zero_fill_set
          then (zero_fill_unsupported, zero_fill_is_unsupported)
          else (other, start_is_unsupported),
    ))
      × ((check_request request g).0.is_reset_ongoing ≡ g.is_reset_ongoing)
      × ((check_request request g).0.reboots ≡ g.reboots)
unfolding populate_reset_response
check_request-reply request g = ground arith

go_on-zero :
    (starts : Bool) (g : GnoiReset) (s : GnoiReset × Reply) (r : Response × Detail)
    → s.1 ≡ (0, r)
    → go_on starts g (some s) ≡ (s.0, some (0, r))
go_on-zero starts g (parsed, (zero, response)) r h = ap (λ x. (parsed, some x)) h
go_on-zero starts g (parsed, (suc n, response)) r h = cc

pub issue_reset-answer :
    (starts : Bool) (loaded : Loaded) (g : GnoiReset)
    → ((issue_reset starts loaded g).1 ≡ answer loaded)
      × ((issue_reset starts loaded g).0.is_reset_ongoing ≡ g.is_reset_ongoing)
      × ((issue_reset starts loaded g).0.reboots ≡ g.reboots)
unfolding issue_reset parse_arguments populate_reset_response
issue_reset-answer starts raises g = (refl, refl, refl)
issue_reset-answer starts value_error g = (refl, refl, refl)
issue_reset-answer starts (object raw) g =
    let stored = record g { reset_request = some (normalize raw) } in
    let (replied, flag, reboots) = check_request-reply (normalize raw) stored in
    let e = go_on-zero starts g (check_request (normalize raw) stored) _ replied in
    (ap (λ s. s.1) e, ap (λ s. s.0.is_reset_ongoing) e ∙ flag, ap (λ s. s.0.reboots) e ∙ reboots)

requests_keep :
    (rs : List (Bool × Loaded)) (g : GnoiReset)
    → ((requests rs g).reboots ≡ g.reboots)
      × ((requests rs g).is_reset_ongoing ≡ g.is_reset_ongoing)
requests_keep [] g = (refl, refl)
requests_keep ((starts, loaded) ∷ rs) g =
    let (reply, flag, reboots) = issue_reset-answer starts loaded g in
    let (reboots_later, flag_later) = requests_keep rs (issue_reset starts loaded g).0 in
    (reboots_later ∙ reboots, flag_later ∙ flag)

-- No sequence of requests reboots the host or sets the flag of a reset.
pub requests-init :
    (rs : List (Bool × Loaded))
    → ((requests rs init).reboots ≡ 0) × ((requests rs init).is_reset_ongoing ≡ false)
unfolding init
requests-init rs = requests_keep rs init
