-- ===== src/Host/Systemd.antt =====
-- host_modules/systemd_service.py: restarts and stops services of the host.
use sonic_host_services.Base.{
  ℕ, Bool, true, false, not, ◌&&◌, ◌||◌, ◌==◌, List, [], ◌∷◌, String, str_eq, eq_iff, ◌≡◌, ◌⊎◌,
  refl, arith, if◌then◌else◌,
}
use sonic_host_services.Base.Text.{Text, codes, occurs}

pub data Call : Type 0 where
  reset_failed restart stop : String → Call

-- The replies: no service, a service that is not allowed, the errors of systemctl, or no text.
pub data Message : Type 0 where
  no_service not_supported no_text : Message
  errors : Text → Message

unfoldable pub is_one_of : String → List String → Bool
is_one_of service [] = false
is_one_of service (s ∷ services) = str_eq s service || is_one_of service services

abbrev pub allowed_services : List String
allowed_services =
    "snmp" ∷ "swss" ∷ "dhcp_relay" ∷ "radv" ∷ "restapi" ∷ "lldp" ∷ "sshd" ∷ "pmon" ∷ "rsyslog"
    ∷ "telemetry" ∷ []

abbrev pub reply_of : ℕ × Text → ℕ × Message
reply_of (code, stderr) = (code, if code == 0 then no_text else errors stderr)

no_service_allowed : is_one_of "" allowed_services ≡ false
unfolding is_one_of
no_service_allowed = refl

-- `runs` is the code of a call of systemctl and its errors, after the calls before; a method gives
-- its calls, the last one first, and its reply.
module _ (runs : List Call → Call → ℕ × Text) where
  unfoldable pub restart_service : String → List Call × (ℕ × Message)
  restart_service service =
      let (code, msg) = runs [] (reset_failed service) in
      let restarted = reply_of (runs (reset_failed service ∷ []) (restart service)) in
      if str_eq service ""
      then ([], (1, no_service))
      else if not (is_one_of service allowed_services)
      then ([], (1, not_supported))
      else if not (code == 0) && not (occurs (codes "Failed to reset failed state") msg)
      then (reset_failed service ∷ [], (code, errors msg))
      else (restart service ∷ reset_failed service ∷ [], restarted)

  unfoldable pub stop_service : String → List Call × (ℕ × Message)
  stop_service service =
      if str_eq service ""
      then ([], (1, no_service))
      else if not (is_one_of service allowed_services)
      then ([], (1, not_supported))
      else (stop service ∷ [], reply_of (runs [] (stop service)))

  -- A restart calls systemctl exactly for the allowed services: it resets the failed state, and
  -- restarts unless that had an unexpected error.
  pub restart_service-calls :
      (service : String)
      → (((restart_service service).0 ≡ []) × (is_one_of service allowed_services ≡ false))
        ⊎ ((is_one_of service allowed_services ≡ true)
            × (((restart_service service).0 ≡ reset_failed service ∷ [])
                ⊎ ((restart_service service).0 ≡ restart service ∷ reset_failed service ∷ [])))
  unfolding restart_service
  restart_service-calls service = ground (arith, eq_iff service "", no_service_allowed)
