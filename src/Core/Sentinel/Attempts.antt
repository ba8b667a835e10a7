-- ===== src/Core/Sentinel/Attempts.antt =====
-- How `sentinel::connect_sentinel` ends (sources/core/sentinel.cpp).
use cpp_redis.Prelude.{◌≡◌, ◌⊎◌, ◌≢◌, Bool-cases, inl, inr, refl}
use cpp_redis.Network.Connection
use cpp_redis.Core.Sentinel.{
  Sentinel, SentinelDef, Ran, TcpClient, Bool, false, none, true, some, redis_error, List, [], not,
  ◌∷◌,
}
use cpp_redis.Core.Sentinel.Connecting.{
  is_connected, disconnect, tried, try_sentinels, tries_over, connect_any, connect_sentinel,
}

module _ {S : Type 0} (T : TcpClient S) where
  -- A socket is not connected once it has been disconnected.
  abbrev pub Closes : Type 0
  Closes =
      (wait_for_removal : Bool) (c : S) → T.is_connected (T.disconnect wait_for_removal c) ≡ false

  -- Either nothing is thrown, the sentinel is connected and has the handler; or a `redis_error` is,
  -- and it is not.
  abbrev pub Outcome : Bool → Ran S → Type 0
  Outcome on_disconnect r =
      (r.thrown ≡ none
        × is_connected T r.state ≡ true
        × r.state.has_disconnect_handler ≡ on_disconnect)
      ⊎ (r.thrown ≡ some (redis_error "Unable to connect to any sentinels")
          × is_connected T r.state ≡ false)

  -- The flag of the loop says whether the connection is closed in the end.
  try_sentinels-Connected :
      Closes
      → (ds : List SentinelDef) (s : Sentinel S) → is_connected T s ≡ false
      → is_connected T (try_sentinels T ds s).0 ≡ not (try_sentinels T ds s).1
  unfolding try_sentinels disconnect Connection.disconnect
  try_sentinels-Connected closes [] s h = h
  try_sentinels-Connected closes (d ∷ ds) s h = elim (Bool-cases (is_connected T (tried T d s))) [
    | inl online ↦ rw online online
    | inr offline ↦
        rw offline
          (try_sentinels-Connected closes ds (disconnect T true (tried T d s)) (closes true _))
  ]

  tries_over-Outcome :
      (on_disconnect : Bool) (r : Sentinel S × Bool)
      → is_connected T r.0 ≡ not r.1
      → Outcome on_disconnect (tries_over T on_disconnect r)
  unfolding tries_over
  tries_over-Outcome on_disconnect (s, true) h = inr (refl, h)
  tries_over-Outcome on_disconnect (s, false) h = inl (refl, h, refl)

  connect_any-Outcome :
      Closes
      → (on_disconnect : Bool) (s : Sentinel S) (ds : List SentinelDef) → is_connected T s ≡ false
      → ds ≢ []
      → Outcome on_disconnect (connect_any T on_disconnect s ds)
  unfolding connect_any
  connect_any-Outcome closes on_disconnect s [] h ne = absurd (ne refl)
  connect_any-Outcome closes on_disconnect s (d ∷ ds) h ne =
      tries_over-Outcome on_disconnect (try_sentinels T (d ∷ ds) s)
        (try_sentinels-Connected closes (d ∷ ds) s h)

  -- On a sentinel that is not connected and knows of at least one sentinel, `connect_sentinel` ends
  -- in one of two ways: either nothing is thrown, it is connected and has the handler that was given,
  -- or a `redis_error` is thrown and it is not connected.
  pub connect_sentinel-Outcome :
      Closes
      → (on_disconnect : Bool) (s : Sentinel S) → is_connected T s ≡ false
      → s.sentinels ≢ []
      → Outcome on_disconnect (connect_sentinel T on_disconnect s)
  unfolding connect_sentinel
  connect_sentinel-Outcome closes on_disconnect s h ne =
      connect_any-Outcome closes on_disconnect s s.sentinels h ne
