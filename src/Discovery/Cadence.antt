-- ===== src/Discovery/Cadence.antt =====
-- How often the firmware broadcasts.
use vehicle_spy.Base.{
  ℕ, ◌+◌, ◌-◌, ◌<◌, ◌≤◌, ◌≡◌, ◌≢◌, ◌⊎◌, ap, true, false, List, [], arith, if◌then◌else◌, ltb,
}
use vehicle_spy.Discovery.Beacon.{
  Manager, Env, discovery_interval, since, clock_mod, broadcast, update, should_broadcast,
}

pub discovery_interval_bounds :
    (age : ℕ) → (500 ≤ discovery_interval age) × (discovery_interval age ≤ 30000)
unfolding discovery_interval
discovery_interval_bounds age = ground arith

-- Between five and ten minutes of age the interval exceeds the host's discovery window of twelve
-- seconds, and at every other age it does not.
pub discovery_interval_window :
    (age : ℕ)
    → ltb 12000 (discovery_interval age)
      ≡ (if ltb age 300000 then false else if ltb age 600000 then true else false)
unfolding discovery_interval
discovery_interval_window age = ground arith

module _ (sign : List ℕ → List ℕ) where
  -- As an access point or a station, once the interval for its age has passed since the last attempt,
  -- an update acts on the socket at once, keeps the attempt's time whether or not the datagram went
  -- out, and leaves the connection's time.
  pub update_when_due :
      (m : Manager) (e : Env) (now : ℕ)
      → should_broadcast e ≡ true
      → discovery_interval (since now m.connect_time) ≤ since now m.last_broadcast
      → ((update sign m e now).0.last_broadcast ≡ now)
        × ((update sign m e now).1 ≢ [])
        × ((update sign m e now).0.connect_time ≡ m.connect_time)
  unfolding update broadcast
  update_when_due m e now s due = ground arith

  pub update_not_due :
      (m : Manager) (e : Env) (now : ℕ)
      → (should_broadcast e ≡ false)
        ⊎ (since now m.last_broadcast < discovery_interval (since now m.connect_time))
      → update sign m e now ≡ (m, [])
  unfolding update
  update_not_due m e now h = ground arith

  update-sends_due :
      (m : Manager) (e : Env) (now : ℕ)
      → (update sign m e now).1 ≢ []
      → discovery_interval (since now m.connect_time) ≤ since now m.last_broadcast
  unfolding update
  update-sends_due m e now h = ground arith

  update-sends_last :
      (m : Manager) (e : Env) (now : ℕ)
      → (update sign m e now).1 ≢ []
      → (update sign m e now).0.last_broadcast ≡ now
  unfolding update broadcast
  update-sends_last m e now h = ground arith

  since_later : (now later : ℕ) → now ≤ later → later < clock_mod → since later now ≡ later - now
  since_later now later h k = omega arith

  -- Two updates in a row that both act on the socket, the second not before the first, are at
  -- least half a second apart, if the later time is below 2 ^ 32.
  pub update_spacing :
      (m : Manager) (e f : Env) (now later : ℕ)
      → now ≤ later
      → later < clock_mod
      → (update sign m e now).1 ≢ []
      → (update sign (update sign m e now).0 f later).1 ≢ []
      → now + 500 ≤ later
  update_spacing m e f now later h k first second =
      let again = update-sends_due (update sign m e now).0 f later second in
      let age = since later (update sign m e now).0.connect_time in
      omega (
        arith,
        again,
        (discovery_interval_bounds age).0,
        ap (since later) (update-sends_last m e now first),
        since_later now later h k,
      )
