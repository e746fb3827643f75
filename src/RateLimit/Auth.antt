-- ===== src/RateLimit/Auth.antt =====
-- The limits of the auth surface: a client over its own limit spends no address's budget.
use hedge_desk.Prelude.{ℕ, ◌≤◌, ◌≡◌, String, Bool, false, ◌&&◌, length, arith, if◌then◌else◌}
use hedge_desk.RateLimit.{AuthRateLimits, ip_key, allow, allow_request}
use hedge_desk.RateLimit.Refines.{Log, Tracks, recent}
use hedge_desk.RateLimit.Refines.Steps.{allow_exact}

module _ (email client_ip : String) (now later : ℕ) (r : AuthRateLimits) where
  -- The outcome of the IP's limiter decides whether the address's limiter is asked.
  request_after_ip :
      (ip_granted : Bool)
      → (allow (ip_key client_ip) now r.request_per_ip).1 ≡ ip_granted
      → ((allow_request email client_ip now later r).1
          ≡ (ip_granted && (allow email later r.request_per_email).1))
        × ((allow_request email client_ip now later r).0.request_per_email ≡ (
            if ip_granted then (allow email later r.request_per_email).0 else r.request_per_email))
  request_after_ip granted h = unfold allow_request in rw h (ground arith)

  -- A request of a client that has used up its limit inside the window is refused, whatever the
  -- address: the address's limiter is left as it is, and so is that of the verifications.
  pub over_ip_limit :
      (log : Log)
      → Tracks r.request_per_ip log now
      → r.request_per_ip.limit ≤ length (recent (ip_key client_ip) now r.request_per_ip log)
      → ((allow_request email client_ip now later r).1 ≡ false)
        × ((allow_request email client_ip now later r).0.request_per_email ≡ r.request_per_email)
        × ((allow_request email client_ip now later r).0.verify_per_email ≡ r.verify_per_email)
  over_ip_limit log v spent =
      let refused : (allow (ip_key client_ip) now r.request_per_ip).1 ≡ false =
        rw (allow_exact (ip_key client_ip) r.request_per_ip log now v) (ground arith) in
      let after = request_after_ip false refused in
      (after.0, after.1, unfold allow_request in rw refused)
