-- ===== src/Webhook/Receiver.antt =====
-- `Receiver` of internal/webhook/receiver.go, which answers the notifications of Google Calendar. The
-- notifier is a function on the world, and `sha256` the digest of a text; logging is left out.
use calendar_bridge.Base.{
  ℕ, ◌≡◌, ◌≢◌, ap, String, Bool, not, ◌⊎◌, inl, inr, ◌==◌, ◌/=◌, string_eq, arith, if◌then◌else◌,
}

-- What is read of `*http.Request`, the headers by name.
pub record Request : Type 0 where
  pub method : String
  -- X-Goog-Channel-Token
  pub channel_token : String
  -- X-Goog-Resource-State
  pub resource_state : String

pub record Receiver (W : Type 0) : Type 0 where
  pub token : String
  pub notify : W → W

module _ {W : Type 0} (sha256 : String → String) (r : Receiver W) where
  unfoldable pub valid_token : String → Bool
  valid_token got = sha256 got == sha256 r.token

  -- The status code of the answer, and the world after it.
  unfoldable pub serve_http : Request → W → ℕ × W
  serve_http req w =
      if req.method /= "POST"
      then (405, w)
      else if not (valid_token req.channel_token)
      then (403, w)
      else if req.resource_state == "sync"
      then (200, w)
      else (200, r.notify w)

  -- The notifier is called, or nothing happens.
  pub data Answer (req : Request) (w : W) : ℕ × W → Type 0 where
    refused_method : req.method ≢ "POST" → Answer req w (405, w)
    forbidden : req.channel_token ≢ r.token → Answer req w (403, w)
    handshake : req.resource_state ≡ "sync" → Answer req w (200, w)
    notified :
        req.method ≡ "POST"
        → req.channel_token ≡ r.token
        → req.resource_state ≢ "sync"
        → Answer req w (200, r.notify w)

  serve_http-cases :
      (req : Request) (w : W)
      → ((req.method ≢ "POST") × (serve_http req w ≡ (405, w)))
        ⊎ (((sha256 req.channel_token ≢ sha256 r.token) × (serve_http req w ≡ (403, w)))
            ⊎ (((req.resource_state ≡ "sync") × (serve_http req w ≡ (200, w)))
                ⊎ ((req.method ≡ "POST")
                    × (sha256 req.channel_token ≡ sha256 r.token)
                    × (req.resource_state ≢ "sync")
                    × (serve_http req w ≡ (200, r.notify w)))))
  unfolding serve_http valid_token
  serve_http-cases req w = ground arith

  -- The receiver calls the notifier for a POST with the configured token whose state is not the
  -- handshake's, and for no other request, and answers the others by 405, 403 or, to a handshake,
  -- 200; if the request's token is the configured one where their digests are the same.
  pub serve_http-Answer :
      (req : Request) (w : W)
      → (sha256 req.channel_token ≡ sha256 r.token → req.channel_token ≡ r.token)
      → Answer req w (serve_http req w)
  serve_http-Answer req w no_collision = elim (serve_http-cases req w) [
    | inl (other, same) ↦ rw same (refused_method other)
    | inr (inl (forged, same)) ↦ rw same (forbidden (λ p. forged (ap sha256 p)))
    | inr (inr (inl (hello, same))) ↦ rw same (handshake hello)
    | inr (inr (inr (post, token, change, same))) ↦
        rw same (notified post (no_collision token) change)
  ]
